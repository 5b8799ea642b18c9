-- ===== src/Storage/File/Written.antt =====
-- `Write` of an entry: what it appends, whether or not the kernel fails a call.
use lightdb.Storage.Status.{k_ok}
use lightdb.Storage.Entry.{Entry, encode}
use lightdb.Storage.Entry.RoundTrip.{Fits}
use lightdb.Storage.File.{Outcome, Io, DbFile, write, appended, Code, write_loop}
use lightdb.Storage.File.Transfer.{Succeeds, write_loop-Succeeds, write_loop-prefix}
use lightdb.Common.{
  ◌^◌, ◌%◌, ℕ, List, length, take, ◌≡◌, refl, ap, ◌∙◌, length-append, arith, ◌<◌, take_whole,
}

-- The entry fits the 32-bit size of `Write`.
abbrev pub Writable : Entry → Type 0
Writable e = Fits e × (length (encode e) < 2 ^ 32)

write_buf :
    (e : Entry)
    → length (encode e) < 2 ^ 32
    → take (length (encode e) % 2 ^ 32) (encode e) ≡ encode e
write_buf e h = take_whole (encode e) (length (encode e) % 2 ^ 32) (omega arith)

-- `Write` appends the bytes of the entry to the file and moves the write offset by as many.
pub write-Succeeds :
    (io : Io) (e : Entry)
    → Writable e
    → Succeeds io.outcomes
    → (io' : Io) × (write io e ≡ (k_ok, io'))
      × (io'.file ≡ appended io.file (encode e))
      × Succeeds io'.outcomes
unfolding write
write-Succeeds io e w h =
    let (os', done, left) = write_loop-Succeeds io.outcomes (encode e) io.file h in
    (
      record { file = appended io.file (encode e); outcomes = os' },
      ap
          (λ (r : Code × DbFile × List Outcome).
            let (status, g, os) = r in (status, record { file = g; outcomes = os }))
          (ap (λ t. write_loop io.outcomes t io.file) (write_buf e w.1) ∙ done),
      refl,
      left,
    )

-- The write offset is the length of the file.
abbrev pub IsSynced : DbFile → Type 0
IsSynced g = g.write_offset ≡ length g.bytes

-- For an entry that fits and takes less than 2^32 bytes, on a file whose write offset is its length:
-- whatever the kernel does, `Write` appends a prefix of the entry's bytes, and the write offset is
-- the length of the file afterwards.
pub write-prefix :
    (io : Io) (e : Entry)
    → Writable e
    → IsSynced io.file
    → ((n : ℕ) × ((write io e).1.file ≡ appended io.file (take n (encode e))))
      × IsSynced (write io e).1.file
unfolding write
write-prefix io e w s =
    let (n, p) = write_loop-prefix io.outcomes (encode e) io.file in
    let q : (write io e).1.file ≡ appended io.file (take n (encode e)) =
      ap (λ t. (write_loop io.outcomes t io.file).1) (write_buf e w.1) ∙ p in
    ((n, q), rw q (omega (arith, s, length-append {0} io.file.bytes (take n (encode e)))))
