-- ===== src/Kernel/Access.antt =====
-- What the pointer check of the system calls lets through, and what syscall_getargs returns.
use zbiggie.Prelude.{ℕ, ◌+◌, ◌≤◌, ◌<◌, ◌≡◌, ◌↔◌, arith, true, modulus}
use zbiggie.Kernel.{Kernel}
use zbiggie.Kernel.Files.{usr_ptr_ok, syscall_getargs}

-- usr_ptr_ok accepts a range whose end does not wrap exactly if it lies in the user page, from 128 MB
-- to 132 MB.
pub usr_ptr_ok_iff :
    (p s : ℕ) → p + s < modulus → (usr_ptr_ok p s ≡ true) ↔ ((134217728 ≤ p) × (p + s ≤ 138412032))
unfolding usr_ptr_ok
usr_ptr_ok_iff p s h = ground arith

-- For every address of the user page the check also accepts sizes so large that the end wraps to an
-- address that is not above 132 MB.
pub usr_ptr_ok_wraps :
    (p s : ℕ)
    → 134217728 ≤ p
    → p ≤ 138412032
    → modulus ≤ p + s
    → s < modulus
    → usr_ptr_ok p s ≡ true
unfolding usr_ptr_ok
usr_ptr_ok_wraps p s lo hi wrap small = ground arith

-- syscall_getargs never reports that the arguments were cut: with a range that the check accepts and
-- that holds at most 128 MB it returns 0, however long the arguments are.
pub syscall_getargs-zero :
    (buf nbytes : ℕ) (k : Kernel)
    → nbytes ≤ 134217728
    → usr_ptr_ok buf nbytes ≡ true
    → (syscall_getargs buf nbytes k).0 ≡ 0
unfolding syscall_getargs usr_ptr_ok
syscall_getargs-zero buf nbytes k small ok' = ground arith
