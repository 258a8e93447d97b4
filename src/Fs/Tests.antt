-- ===== src/Fs/Tests.antt =====
-- The file system on an image with one file.
use zbiggie.Prelude.{ℕ, zero, suc, ◌≡◌, refl, arith, some, load32, Bytes}
use zbiggie.Samples.{zeros, volume_a}
use zbiggie.Text.{strncmp}
use zbiggie.Fs.{num_dentry, num_inode, inode_length, inode_at, dentry_at, read_data}
use zbiggie.Fs.Data.{loaded, read_data_lem}
use zbiggie.Fs.Directory.{Named}

one_inode : num_inode volume_a ≡ 1
unfolding num_inode load32
one_inode = refl

five_thousand : inode_length volume_a 0 ≡ 5000
unfolding inode_length inode_at load32
five_thousand = refl

one_dentry : num_dentry volume_a ≡ 1
unfolding num_dentry load32
one_dentry = refl

-- "a", and no other byte.
abbrev name_a : ℕ → ℕ
name_a zero = b'a'
name_a (suc i) = 0

name_a-Named : Named volume_a name_a 0 0
unfolding strncmp dentry_at
name_a-Named = refl

-- A read across the end of the first block, cut at the end of the file.
read_data_lem_example :
    (out : Bytes) × (read_data volume_a 0 4000 zeros 100 2000 ≡ some (1000, out))
    × ((a : ℕ) → out a ≡ loaded volume_a 0 4000 zeros 100 1000 a)
unfolding inode_length inode_at load32
read_data_lem_example =
    read_data_lem volume_a 0 4000 zeros 100 2000 (ground (arith, one_inode))
      (ground (arith, five_thousand)) (omega arith) (ground (arith, five_thousand))
