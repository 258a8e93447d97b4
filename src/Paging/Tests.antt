-- ===== src/Paging/Tests.antt =====
-- The directories of two processes.
use zbiggie.Prelude.{◌/◌, ◌<◌, ◌≡◌, ◌≢◌, arith}
use zbiggie.Samples.{blank_tables}
use zbiggie.Paging.{init_pd}
use zbiggie.Paging.Isolation.{init_pd_disjoint}

init_pd_disjoint_example :
    ((init_pd 3 blank_tables).page_directories 3 32 / 4194304
      ≢ (init_pd 4 blank_tables).page_directories 4 32 / 4194304)
    × (1 < (init_pd 3 blank_tables).page_directories 3 32 / 4194304)
    × ((init_pd 3 blank_tables).page_directories 4 ≡ blank_tables.page_directories 4)
init_pd_disjoint_example =
    init_pd_disjoint 3 4 blank_tables (omega arith) (omega arith) (omega arith) (omega arith)
