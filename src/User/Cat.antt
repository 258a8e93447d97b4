-- ===== src/User/Cat.antt =====
-- What cat writes, over every system whose reads hand out a file and whose writes accept their bytes.
use zbiggie.Prelude.{
  ℕ, zero, suc, ◌+◌, ◌-◌, ◌≤◌, ◌<◌, ◌≡◌, ◌≢◌, ◌∙◌, refl, ap, sym, arith, false, some, List, [], ◌∷◌,
  ◌++◌, ◌==◌, ◌&&◌, leb, ltb, if◌then◌else◌, minus_one, Bytes,
}
use Prim.Native.Nat.{min}
use native.Mathlib.Decide.{dec_lt}
use zbiggie.User.System.{System}
use zbiggie.User.Programs.{cat_loop, cat}

-- The `n` bytes from `p` on.
unfoldable pub bytes : Bytes → ℕ → ℕ → List ℕ
bytes m p zero = []
bytes m p (suc n) = m p ∷ bytes m (p + 1) n

-- Each read of `size` bytes into `buf` hands out what follows in the file of `length` bytes, and puts
-- nothing elsewhere; `At p` are the states where `p` bytes were read.
pub record FileReads (sys : System) (fd buf size length : ℕ) (byte : Bytes)
    (At : ℕ → sys.State → Type 0) : Type 0 where
  pub reads :
      (p : ℕ) (m : Bytes) (st : sys.State)
      → p ≤ length
      → At p st
      → let n = min size (length - p) in
        (m' : Bytes) × (st' : sys.State) × (sys.read fd buf size m st ≡ some (n, m', st'))
        × ((a : ℕ) → m' a ≡ (if leb buf a && ltb a (buf + n) then byte (p + (a - buf)) else m a))
        × At (p + n) st'

-- What has been output, and how more bytes go behind it.
pub record Output (S : Type 0) : Type 1 where
  pub Shown : Type 0
  pub shown : S → Shown
  pub emit : Shown → List ℕ → Shown
  pub emit-nil : (o : Shown) → emit o [] ≡ o
  pub emit-append : (o : Shown) (xs ys : List ℕ) → emit (emit o xs) ys ≡ emit o (xs ++ ys)

-- Each write of at most `size` bytes to the standard output accepts them all and puts them behind what
-- was output, and a read of the file outputs nothing.
pub record WritesAll (sys : System) (fd buf size : ℕ) (At : ℕ → sys.State → Type 0)
    (out : Output sys.State) : Type 0 where
  pub writes :
      (p n : ℕ) (m : Bytes) (st : sys.State)
      → n ≤ size
      → At p st
      → (st' : sys.State) × (sys.write 1 buf n m st ≡ some (n, st'))
        × (out.shown st' ≡ out.emit (out.shown st) (bytes m buf n))
        × At p st'
  pub quiet :
      (p n : ℕ) (m m' : Bytes) (st st' : sys.State)
      → At p st
      → sys.read fd buf size m st ≡ some (n, m', st')
      → out.shown st' ≡ out.shown st

bytes-same :
    (n : ℕ) (m : Bytes) (p : ℕ) (m' : Bytes) (q : ℕ)
    → ((i : ℕ) → i < n → m (p + i) ≡ m' (q + i))
    → bytes m p n ≡ bytes m' q n
unfolding bytes
bytes-same zero m p m' q h = refl
bytes-same (suc n) m p m' q h =
    let z : p + 0 ≡ p = omega arith in
    let w : q + 0 ≡ q = omega arith in
    let first : m p ≡ m' q = rw (z, w) at (h 0 (omega arith)) in
    rw (
      first,
      bytes-same n m (p + 1) m' (q + 1) (λ i lt.
          (let e : p + 1 + i ≡ p + (i + 1) = omega arith in
            let e' : q + 1 + i ≡ q + (i + 1) = omega arith in
            rw (e, e') (h (i + 1) (omega arith)))),
    )

bytes-append : (a b : ℕ) (m : Bytes) (p : ℕ) → bytes m p (a + b) ≡ bytes m p a ++ bytes m (p + a) b
unfolding bytes
bytes-append zero b m p =
    let e : p + 0 ≡ p = omega arith in let e' : 0 + b ≡ b = omega arith in rw (e, e')
bytes-append (suc a) b m p =
    let e : p + suc a ≡ p + 1 + a = omega arith in
    let e' : suc a + b ≡ suc (a + b) = omega arith in
    rw (e', e) (ap (λ (l : List ℕ). m p ∷ l) (bytes-append a b m (p + 1)))

module _ (sys : System) (rodata buf fd length : ℕ) (byte : Bytes) (At : ℕ → sys.State → Type 0)
    (out : Output sys.State) (file : FileReads sys fd buf 1024 length byte At)
    (sink : WritesAll sys fd buf 1024 At out) (small : length < 2147483648) where
  -- What is left of the file behind `p` bytes is output, and the loop ends.
  abbrev Finished : ℕ → ℕ → Bytes → sys.State → Type 0
  Finished fuel p m st =
      (st' : sys.State) × (cat_loop sys rodata buf fuel fd m st ≡ some (0, st'))
      × (out.shown st' ≡ out.emit (out.shown st) (bytes byte p (length - p)))

  cat_loop-end :
      (fuel p : ℕ) (m : Bytes) (st : sys.State)
      → p ≤ length
      → At p st
      → length - p ≡ 0
      → Finished (suc fuel) p m st
  unfolding cat_loop bytes
  cat_loop-end fuel p m st le at_p e =
      let (m', st', run, copied, at_q) = file.reads p m st le at_p in
      let n0 : min 1024 (length - p) ≡ 0 = omega arith in
      let run0 : sys.read fd buf 1024 m st ≡ some (0, m', st') = run ∙ rw n0 refl in
      (
        st',
        rw run0 refl,
        sink.quiet p 0 m m' st st' at_p run0 ∙ rw e (sym (out.emit-nil (out.shown st))),
      )

  cat_loop-more :
      (fuel p : ℕ) (m : Bytes) (st : sys.State)
      → p ≤ length
      → At p st
      → 0 < length - p
      → ((q : ℕ) (m' : Bytes) (st' : sys.State)
          → p < q
          → q ≤ length
          → At q st'
          → Finished fuel q m' st')
      → Finished (suc fuel) p m st
  unfolding cat_loop
  cat_loop-more fuel p m st le at_p more rec =
      let n = min 1024 (length - p) in
      let (m1, st1, run, copied, at1) = file.reads p m st le at_p in
      let (st2, written, shown2, at2) = sink.writes (p + n) n m1 st1 (omega arith) at1 in
      let (st3, rest, shown3) = rec (p + n) m1 st2 (omega arith) (omega arith) at2 in
      let n_some : n == 0 ≡ false = ground arith in
      let n_good : n == minus_one ≡ false = ground arith in
      let taken : bytes m1 buf n ≡ bytes byte p n = bytes-same n m1 buf byte p (λ i lt.
        (let c = copied (buf + i) in
          let e : buf + i - buf ≡ i = omega arith in ground (arith, c, e))) in
      let sum : n + (length - (p + n)) ≡ length - p = omega arith in
      (
        st3,
        rw (run, n_some, n_good, written, n_good) rest,
        shown3
            ∙ rw (shown2, sink.quiet p n m m1 st st1 at_p run, taken)
                (out.emit-append (out.shown st) (bytes byte p n)
                    (bytes byte (p + n) (length - (p + n)))
                  ∙ ap (out.emit (out.shown st))
                      (sym (bytes-append n (length - (p + n)) byte p) ∙ rw sum refl)),
      )

  -- From any place in the file, with a round for each byte that is left and one more, the loop ends
  -- with 0, and has output the rest of the file.
  cat_loop_lem :
      (fuel p : ℕ) (m : Bytes) (st : sys.State)
      → p ≤ length
      → length - p < fuel
      → At p st
      → Finished fuel p m st
  cat_loop_lem zero p m st le lt at_p = absurd (omega arith)
  cat_loop_lem (suc fuel) p m st le lt at_p = elim (dec_lt 0 (length - p)) [
    | yes more ↦
        cat_loop-more fuel p m st le at_p more
          (λ q m' st' up low at_q. cat_loop_lem fuel q m' st' low (omega arith) at_q)
    | no done ↦ cat_loop-end fuel p m st le at_p (omega arith)
  ]

  -- If getargs gives a name and open a descriptor of a file of fewer than 2 ^ 31 bytes, none read yet,
  -- cat ends with 0, and has output exactly the bytes of the file, in order.
  pub cat_lem :
      (m m1 : Bytes) (st st1 st2 : sys.State)
      → sys.getargs buf 1024 m st ≡ some (0, m1, st1)
      → sys.open_file buf m1 st1 ≡ some (fd, st2)
      → fd ≢ minus_one
      → At 0 st2
      → (st' : sys.State) × (cat sys rodata buf (length + 1) m st ≡ some (0, st'))
        × (out.shown st' ≡ out.emit (out.shown st2) (bytes byte 0 length))
  unfolding cat
  cat_lem m m1 st st1 st2 named opened good start =
      let (st', run, shown') =
        cat_loop_lem (length + 1) 0 m1 st2 (omega arith) (omega arith) start in
      let ok : fd == minus_one ≡ false = ground arith in
      let e : length - 0 ≡ length = omega arith in
      (st', rw (named, opened, ok) run, shown' ∙ rw e refl)
