-- ===== src/Storage/File/ReadBack.antt =====
-- An entry that `Write` appended is what `Read` returns at its offset.
use lightdb.Storage.Status.{k_ok}
use lightdb.Storage.Crc.{crc_compute}
use lightdb.Storage.Entry.{Entry, blank, header_size, encode, decode}
use lightdb.Storage.Entry.RoundTrip.{
  Fits, header, body, encode-header, length-header, torn_tx_id, decoded, decode-header,
}
use lightdb.Storage.File.{
  Outcome, Io, finish_read, read_buf, read_part, check_crc, read_extra, read_value, read_key, read,
  with_key, with_value, with_extra, DbFile, write,
}
use lightdb.Storage.File.Transfer.{Succeeds, read_loop-Succeeds}
use mathlib.Core.List.{append_assoc, append-nil}
use lightdb.Common.{
  ℕ, zero, suc, ◌+◌, ◌-◌, ◌≤◌, ltb, Str, true, List, [], ◌∷◌, ◌++◌, length, take, drop, ◌≡◌, refl,
  sym, ap, ◌∙◌, take-append, drop-append, length-append, length-take, arith, replicate,
}
use lightdb.Storage.File.Written.{Writable, write-Succeeds}

-- The bytes at an offset.
slice_at :
    (pre s post : Str) (o n : ℕ)
    → o ≡ length pre
    → n ≡ length s
    → take n (drop o (pre ++ (s ++ post))) ≡ s
slice_at pre s post o n h k = ap (take n) (drop-append o pre (s ++ post) h) ∙ take-append n s post k

-- A read that stays inside the file: the state after it.
record Reads (io io' : Io) : Type 0 where
  succeeds : Succeeds io'.outcomes
  bytes : io'.file.bytes ≡ io.file.bytes

abbrev moved : Io → ℕ → List Outcome → Io
moved io n os = record { file = record io.file { offset = io.file.offset + n }; outcomes = os }

finish_read-full :
    (io : Io) (n : ℕ) (result s : Str) (os : List Outcome)
    → length s ≡ n
    → finish_read io n result (k_ok, s, os) ≡ (k_ok, s, moved io n os)
unfolding finish_read
finish_read-full io n result s os l =
    let z : n - length s ≡ 0 = omega arith in
    ap (λ k. (k_ok, s ++ replicate k 0, moved io n os)) z
    ∙ ap (λ t. (k_ok, t, moved io n os)) (append-nil s)

module _ (io : Io) (offset n : ℕ) (s : Str) where
  read_buf-slice :
      (result : Str)
      → Succeeds io.outcomes
      → take n (drop offset io.file.bytes) ≡ s
      → length s ≡ n
      → (io' : Io) × (read_buf io result offset n ≡ (k_ok, s, io')) × Reads io io'
  unfolding read_buf
  read_buf-slice result h e l =
      let rest = drop offset io.file.bytes in
      let fits : n ≤ length rest = omega (arith, length-take {0} n rest, ap length e) in
      let (os', done, left) = read_loop-Succeeds io.outcomes rest n [] h fits in
      (
        moved io n os',
        ap (finish_read io n result) (done ∙ ap (λ t. (k_ok, t, os')) e)
            ∙ finish_read-full io n result s os' l,
        record { succeeds = left; bytes = refl },
      )

read_part-slice :
    (io : Io) (offset n : ℕ) (s : Str)
    → Succeeds io.outcomes
    → take n (drop offset io.file.bytes) ≡ s
    → length s ≡ n
    → (io' : Io) × (read_part io [] offset n ≡ (k_ok, s, io')) × Reads io io'
read_part-slice io offset zero [] h e l = (io, refl, record { succeeds = h; bytes = refl })
read_part-slice io offset zero (x ∷ s) h e l = absurd (omega arith)
read_part-slice io offset (suc n) s h e l =
    let t : ltb 0 (suc n) ≡ true = ground arith in
    rw t (read_buf-slice io offset (suc n) s [] h e l)

module _ (e : Entry) (o : ℕ) (io io' : Io) (s : Str) where
  read_extra-step :
      read_part io e.extra o e.extra_size ≡ (k_ok, s, io')
      → crc_compute e.value ≡ e.crc32
      → read_extra e o io ≡ (k_ok, with_extra e s, io')
  unfolding read_extra check_crc
  read_extra-step p c = ground (arith, p, c)

  read_value-step :
      read_part io e.value o e.value_size ≡ (k_ok, s, io')
      → read_value e o io ≡ read_extra (with_value e s) (o + e.value_size) io'
  unfolding read_value
  read_value-step p = ground (arith, p)

  read_key-step :
      read_part io e.key o e.key_size ≡ (k_ok, s, io')
      → read_key e o io ≡ read_value (with_key e s) (o + e.key_size) io'
  unfolding read_key
  read_key-step p = ground (arith, p)

  read-step :
      read_buf io [] o header_size ≡ (k_ok, s, io')
      → read io o e ≡ read_key (decode e s) (o + header_size) io'
  unfolding read
  read-step p = ground (arith, p)

-- The entry as it comes back: all of it but the checksum field, which `Encode` computes, and the
-- transaction id.
abbrev pub read_back : Entry → Entry
read_back e = record e { crc32 = crc_compute e.value; tx_id = torn_tx_id e }

-- Where the parts of an entry lie in a file that holds its bytes.
module _ (pre post : Str) (e : Entry) (f : Fits e) (b : Str)
    (at : b ≡ pre ++ (encode e ++ post)) where
  layout : b ≡ pre ++ (header e ++ (e.key ++ (e.value ++ (e.extra ++ post))))
  unfolding body
  layout = at ∙ rw (encode-header e f) (simp append_assoc)

  header_slice : take 34 (drop (length pre) b) ≡ header e
  header_slice = rw layout (
      slice_at pre (header e) (e.key ++ (e.value ++ (e.extra ++ post))) (length pre) 34 refl
        (sym (length-header e)))

  key_slice : take e.key_size (drop (length pre + 34) b) ≡ e.key
  key_slice =
      rw (layout, ← append_assoc pre (header e) (e.key ++ (e.value ++ (e.extra ++ post))))
        (slice_at (pre ++ header e) e.key (e.value ++ (e.extra ++ post)) (length pre + 34)
          e.key_size (omega (arith, length-append {0} pre (header e), length-header e)) f.key_size)

  value_slice : take e.value_size (drop (length pre + 34 + e.key_size) b) ≡ e.value
  value_slice =
      rw
        (
          layout,
          ← append_assoc pre (header e) (e.key ++ (e.value ++ (e.extra ++ post))),
          ← append_assoc (pre ++ header e) e.key (e.value ++ (e.extra ++ post)),
        )
        (slice_at ((pre ++ header e) ++ e.key) e.value (e.extra ++ post)
          (length pre + 34 + e.key_size) e.value_size
          (omega (
            arith,
            length-append {0} (pre ++ header e) e.key,
            length-append {0} pre (header e),
            length-header e,
            f.key_size,
          ))
          f.value_size)

  extra_slice : take e.extra_size (drop (length pre + 34 + e.key_size + e.value_size) b) ≡ e.extra
  extra_slice =
      rw
        (
          layout,
          ← append_assoc pre (header e) (e.key ++ (e.value ++ (e.extra ++ post))),
          ← append_assoc (pre ++ header e) e.key (e.value ++ (e.extra ++ post)),
          ← append_assoc ((pre ++ header e) ++ e.key) e.value (e.extra ++ post),
        )
        (slice_at (((pre ++ header e) ++ e.key) ++ e.value) e.extra post
          (length pre + 34 + e.key_size + e.value_size) e.extra_size
          (omega (
            arith,
            length-append {0} ((pre ++ header e) ++ e.key) e.value,
            length-append {0} (pre ++ header e) e.key,
            length-append {0} pre (header e),
            length-header e,
            f.key_size,
            f.value_size,
          ))
          f.extra_size)

-- A file that holds the bytes of an entry that fits at an offset: `Read` there succeeds, however the
-- kernel splits or interrupts the transfers as long as it fails none, returns the entry with its
-- checksum, but for the transaction id, and leaves the file's bytes.
pub read-entry :
    (io : Io) (pre post : Str) (e : Entry)
    → Fits e
    → Succeeds io.outcomes
    → io.file.bytes ≡ pre ++ (encode e ++ post)
    → (io' : Io) × (read io (length pre) blank ≡ (k_ok, read_back e, io'))
      × Succeeds io'.outcomes
      × (io'.file.bytes ≡ io.file.bytes)
read-entry io pre post e f h at =
    let b = io.file.bytes in
    let o = length pre in
    let (io1, d1, r1) =
      read_buf-slice io o 34 (header e) [] h (header_slice pre post e f b at) (length-header e) in
    let (io2, d2, r2) =
      read_part-slice io1 (o + 34) e.key_size e.key r1.succeeds
        (rw r1.bytes (key_slice pre post e f b at)) (sym f.key_size) in
    let (io3, d3, r3) =
      read_part-slice io2 (o + 34 + e.key_size) e.value_size e.value r2.succeeds
        (rw (r2.bytes, r1.bytes) (value_slice pre post e f b at)) (sym f.value_size) in
    let (io4, d4, r4) =
      read_part-slice io3 (o + 34 + e.key_size + e.value_size) e.extra_size e.extra r3.succeeds
        (rw (r3.bytes, r2.bytes, r1.bytes) (extra_slice pre post e f b at)) (sym f.extra_size) in
    let x1 = decoded blank e in
    let x2 = with_key x1 e.key in
    let x3 = with_value x2 e.value in
    (
      io4,
      read-step blank o io io1 (header e) d1
          ∙ ap (λ x. read_key x (o + 34) io1)
              (ap (decode blank) (sym (append-nil (header e))) ∙ decode-header blank e [] f)
          ∙ read_key-step x1 (o + 34) io1 io2 e.key d2
          ∙ read_value-step x2 (o + 34 + e.key_size) io2 io3 e.value d3
          ∙ read_extra-step x3 (o + 34 + e.key_size + e.value_size) io3 io4 e.extra d4 refl,
      r4.succeeds,
      r4.bytes ∙ r3.bytes ∙ r2.bytes ∙ r1.bytes,
    )

-- What was written can be read. For an entry that fits and takes less than 2^32 bytes, and a kernel
-- that may split or interrupt calls but fails none, `Write` succeeds and appends the entry's bytes,
-- and `Read` at the old end of the file returns the entry with its checksum, but for the transaction
-- id.
pub read-write :
    (io : Io) (e : Entry)
    → Writable e
    → Succeeds io.outcomes
    → (io1 io2 : Io) × (write io e ≡ (k_ok, io1))
      × (read io1 (length io.file.bytes) blank ≡ (k_ok, read_back e, io2))
      × (io2.file.bytes ≡ io.file.bytes ++ encode e)
read-write io e w h =
    let (io1, written, file, left) = write-Succeeds io e w h in
    let bytes : io1.file.bytes ≡ io.file.bytes ++ encode e = ap (λ (g : DbFile). g.bytes) file in
    let (io2, done, rest, same) =
      read-entry io1 io.file.bytes [] e w.0 left
        (bytes ∙ ap (λ t. io.file.bytes ++ t) (sym (append-nil (encode e)))) in
    (io1, io2, written, done, same ∙ bytes)
