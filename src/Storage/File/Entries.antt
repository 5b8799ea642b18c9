-- ===== src/Storage/File/Entries.antt =====
-- storage/db_file.cpp: files that hold whole entries, one after another.
use lightdb.Storage.Status.{Code, ok, k_end_of_file}
use lightdb.Storage.Entry.{Entry, blank, header_size, size, encode, decode}
use lightdb.Storage.File.{
  DbFile, Io, Outcome, short, interrupted, failed, read_loop, read_buf, finish_read, read_key, read,
  appended,
}
use lightdb.Storage.File.Transfer.{Succeeds}
use mathlib.Core.List.{append_assoc, append-nil}
use lightdb.Common.{
  ℕ, suc, ◌+◌, ◌<◌, Str, length, length-append, drop, List, [], ◌∷◌, ◌++◌, ◌≡◌, refl, sym, ap, ◌∙◌,
  if◌then◌else◌, arith,
}

abbrev pub All {ℓ κ} : {A : Type ℓ} → (A → Type κ) → List A → Type κ
All P [] = Unit
All P (x ∷ xs) = P x × All P xs

abbrev pub encode_all : List Entry → Str
encode_all [] = []
encode_all (e ∷ es) = encode e ++ encode_all es

pub encode_all-append :
    (es fs : List Entry) → encode_all (es ++ fs) ≡ encode_all es ++ encode_all fs
encode_all-append [] fs = refl
encode_all-append (e ∷ es) fs =
    ap (λ t. encode e ++ t) (encode_all-append es fs)
    ∙ sym (append_assoc (encode e) (encode_all es) (encode_all fs))

-- The file holds these entries and nothing else, and its write offset is its end.
abbrev pub Holds : DbFile → List Entry → Type 0
Holds f es = (f.bytes ≡ encode_all es) × (f.write_offset ≡ length f.bytes)

pub appended-Holds :
    (f : DbFile) (es : List Entry) (e : Entry)
    → Holds f es
    → Holds (appended f (encode e)) (es ++ e ∷ [])
appended-Holds f es e (h, k) = (
  ap (λ t. t ++ encode e) h
      ∙ ap (λ t. encode_all es ++ t) (sym (append-nil (encode e)))
      ∙ sym (encode_all-append es (e ∷ [])),
  omega (arith, k, length-append {0} f.bytes (encode e)),
)

-- Every entry begins before offset `b` when the first begins at `o`.
abbrev pub Within : ℕ → ℕ → List Entry → Type 0
Within b o [] = Unit
Within b o (e ∷ es) = (o < b) × Within b (o + size e) es

read_loop-end :
    (os : List Outcome) (n : ℕ)
    → Succeeds os
    → (os' : List Outcome) × (read_loop os [] (suc n) [] ≡ (k_end_of_file, [], os')) × Succeeds os'
unfolding read_loop
read_loop-end [] n h = ([], ground arith, tt)
read_loop-end (short m ∷ os) n h = (os, refl, h)
read_loop-end (interrupted ∷ os) n h = read_loop-end os n h
read_loop-end (failed e ∷ os) n h = elim h [ ]

drop-all : (s : Str) → drop (length s) s ≡ []
drop-all [] = refl
drop-all (c ∷ s) = drop-all s

read_buf-end :
    (io : Io)
    → Succeeds io.outcomes
    → (os : List Outcome) × (read_buf io [] (length io.file.bytes) header_size
        ≡ (k_end_of_file, [], record io { outcomes = os }))
      × Succeeds os
unfolding read_buf finish_read
read_buf-end io h =
    let (os, done, left) = read_loop-end io.outcomes 33 h in
    (
      os,
      ap (finish_read io header_size [])
          (ap (λ t. read_loop io.outcomes t header_size []) (drop-all io.file.bytes) ∙ done),
      left,
    )

-- `Read` at the end of the file reports the end of the file.
pub read-end :
    (io : Io)
    → Succeeds io.outcomes
    → (io' : Io) × (read io (length io.file.bytes) blank ≡ (k_end_of_file, blank, io'))
      × Succeeds io'.outcomes
unfolding read
read-end io h =
    let (os, done, left) = read_buf-end io h in
    (
      record io { outcomes = os },
      ap
          (λ (r : Code × Str × Io).
            let (status, buf, io') = r in
            if ok status
            then read_key (decode blank buf) (length io.file.bytes + header_size) io'
            else (status, blank, io'))
          done,
      left,
    )

-- Files and the entries of each.
abbrev pub HoldAll : List DbFile → List (List Entry) → Type 0
HoldAll [] [] = Unit
HoldAll (f ∷ fs) (es ∷ ess) = Holds f es × HoldAll fs ess
HoldAll _ _ = ⊥

abbrev pub flatten {ℓ} : {A : Type ℓ} → List (List A) → List A
flatten [] = []
flatten (xs ∷ xss) = xs ++ flatten xss
