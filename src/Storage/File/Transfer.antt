-- ===== src/Storage/File/Transfer.antt =====
-- The loops of `Write` and `ReadBuf` transfer everything, however the kernel splits the transfer.
use Prim.Native.Nat.{min}
use lightdb.Storage.Status.{k_ok}
use lightdb.Storage.File.{
  Outcome, short, interrupted, failed, DbFile, read_loop, appended, write_loop,
}
use mathlib.Core.List.{append_assoc, append-nil}
use lightdb.Common.{
  ℕ, zero, suc, ◌+◌, ◌-◌, ◌≤◌, Str, List, [], ◌∷◌, ◌++◌, length, take, drop, ◌≡◌, refl, sym, ap,
  ◌∙◌, take-append-drop, take_whole, length-append, length-drop, arith, take-append-take,
}

-- No call fails.
abbrev pub Succeeds : List Outcome → Type 0
Succeeds [] = Unit
Succeeds (short n ∷ os) = Succeeds os
Succeeds (interrupted ∷ os) = Succeeds os
Succeeds (failed e ∷ os) = ⊥

appended-appended :
    (f : DbFile) (a b c : Str) → a ++ b ≡ c → appended (appended f a) b ≡ appended f c
appended-appended f a b c h = λ i. record {
  id = f.id;
  bytes = (append_assoc f.bytes a b ∙ ap (λ t. f.bytes ++ t) h) i;
  offset = f.offset;
  write_offset =
      (let e : f.write_offset + length a + length b ≡ f.write_offset + length c =
            omega (arith, length-append {0} a b, ap length h) in
          e)
        i;
}

appended-nil : (f : DbFile) → f ≡ appended f []
appended-nil f = λ i. record {
  id = f.id;
  bytes = (sym (append-nil f.bytes)) i;
  offset = f.offset;
  write_offset = (let e : f.write_offset ≡ f.write_offset + 0 = omega arith in e) i;
}

-- The whole text is appended, and nothing else changes.
pub write_loop-Succeeds :
    (os : List Outcome) (text : Str) (f : DbFile)
    → Succeeds os
    → (os' : List Outcome) × (write_loop os text f ≡ (k_ok, appended f text, os')) × Succeeds os'
unfolding write_loop
write_loop-Succeeds [] text f h = ([], refl, tt)
write_loop-Succeeds (o ∷ os) [] f h = (o ∷ os, ap (λ g. (k_ok, g, o ∷ os)) (appended-nil f), h)
write_loop-Succeeds (short n ∷ os) (x ∷ text) f h =
    let (os', e, s) = write_loop-Succeeds os (drop n text) (appended f (x ∷ take n text)) h in
    (
      os',
      e
          ∙ ap (λ g. (k_ok, g, os'))
              (appended-appended f (x ∷ take n text) (drop n text) (x ∷ text)
                (ap (◌∷◌ x) (take-append-drop n text))),
      s,
    )
write_loop-Succeeds (interrupted ∷ os) (x ∷ text) f h = write_loop-Succeeds os (x ∷ text) f h
write_loop-Succeeds (failed e ∷ os) (x ∷ text) f h = elim h [ ]

-- Whatever the kernel does, what reaches the file is a prefix of the text.
pub write_loop-prefix :
    (os : List Outcome) (text : Str) (f : DbFile)
    → (n : ℕ) × ((write_loop os text f).1 ≡ appended f (take n text))
unfolding write_loop
write_loop-prefix [] text f =
    (length text, ap (appended f) (sym (take_whole text (length text) (omega arith))))
write_loop-prefix (o ∷ os) [] f = (0, appended-nil f)
write_loop-prefix (short n ∷ os) (x ∷ text) f =
    let (m, e) = write_loop-prefix os (drop n text) (appended f (x ∷ take n text)) in
    (
      suc (n + m),
      e
          ∙ appended-appended f (x ∷ take n text) (take m (drop n text)) (x ∷ take (n + m) text)
              (ap (◌∷◌ x) (take-append-take n m (n + m) text refl)),
    )
write_loop-prefix (interrupted ∷ os) (x ∷ text) f = write_loop-prefix os (x ∷ text) f
write_loop-prefix (failed e ∷ os) (x ∷ text) f = (0, appended-nil f)

-- Enough bytes in the file: all of them are read.
pub read_loop-Succeeds :
    (os : List Outcome) (rest : Str) (nleft : ℕ) (buf : Str)
    → Succeeds os
    → nleft ≤ length rest
    → (os' : List Outcome) × (read_loop os rest nleft buf ≡ (k_ok, buf ++ take nleft rest, os'))
      × Succeeds os'
unfolding read_loop
read_loop-Succeeds [] rest nleft buf h k = ([], ground arith, tt)
read_loop-Succeeds (o ∷ os) rest zero buf h k =
    (o ∷ os, ap (λ b. (k_ok, b, o ∷ os)) (sym (append-nil buf)), h)
read_loop-Succeeds (short n ∷ os) [] (suc nleft) buf h k = absurd (omega arith)
read_loop-Succeeds (short n ∷ os) (x ∷ rest) (suc nleft) buf h k =
    let c = min (n + 1) (min (suc nleft) (length (x ∷ rest))) in
    let xs : Str = x ∷ rest in
    let (os', e, s) =
      read_loop-Succeeds os (drop c xs) (suc nleft - c) (buf ++ take c xs) h
        (omega (arith, length-drop {0} c xs)) in
    (
      os',
      e
          ∙ ap (λ b. (k_ok, b, os'))
              (append_assoc buf (take c xs) (take (suc nleft - c) (drop c xs))
                ∙ ap (λ t. buf ++ t)
                    (take-append-take c (suc nleft - c) (suc nleft) xs (omega arith))),
      s,
    )
read_loop-Succeeds (interrupted ∷ os) rest (suc nleft) buf h k =
    read_loop-Succeeds os rest (suc nleft) buf h k
read_loop-Succeeds (failed e ∷ os) rest (suc nleft) buf h k = elim h [ ]
