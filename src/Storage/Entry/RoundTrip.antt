-- ===== src/Storage/Entry/RoundTrip.antt =====
-- An entry, its bytes, and the entry read back from them.
use Prim.Native.Nat.{bit_and}
use lightdb.Storage.Coding.{
  encode_fixed16, encode_fixed32, encode_fixed64, decode_fixed16-encode_fixed16,
  decode_fixed32-encode_fixed32, decode_fixed64-encode_fixed64, decode_fixed64-across,
}
use lightdb.Storage.Crc.{crc_compute, crc_compute-lt}
use lightdb.Storage.Entry.{
  Entry, encode, decode, size, make_state, new_entry_now, get_type, DataType, get_mark,
  OperationType, type_code, mark_code, header_size,
}
use mathlib.Core.List.{append_assoc, append-nil}
use lightdb.Storage.Entry.{string, string_set}
use lightdb.Common.Bits.{bit_and-mask, bit_or-high_low}
use lightdb.Common.{
  ◌-◌, ◌≢◌, ℕ, ◌+◌, ◌*◌, ◌/◌, ◌%◌, ◌^◌, ◌<◌, ltb, Str, [], ◌++◌, length, length-append, ◌≡◌, refl,
  ◌∙◌, sym, ap, arith, if◌then◌else◌, false, ◌∷◌, true, drop,
}

-- The numbers of an entry fit their fields, and the sizes are those of the strings.
pub record Fits (e : Entry) : Type 0 where
  pub key_size : e.key_size ≡ length e.key
  pub value_size : e.value_size ≡ length e.value
  pub extra_size : e.extra_size ≡ length e.extra
  pub key_word : e.key_size < 2 ^ 32
  pub value_word : e.value_size < 2 ^ 32
  pub extra_word : e.extra_size < 2 ^ 32
  pub state_word : e.state < 2 ^ 16
  pub time_word : e.time_stamp < 2 ^ 64
  pub tx_word : e.tx_id < 2 ^ 64

-- The header, and the strings that follow it.
unfoldable pub header : Entry → Str
header e =
    encode_fixed32 (crc_compute e.value)
    ++ (encode_fixed32 e.key_size
        ++ (encode_fixed32 e.value_size
            ++ (encode_fixed32 e.extra_size
                ++ (encode_fixed16 e.state
                    ++ (encode_fixed64 e.time_stamp ++ encode_fixed64 e.tx_id)))))

unfoldable pub body : Entry → Str
body e = e.key ++ (e.value ++ e.extra)

-- The extra string is appended only where its size is not 0.
join :
    (c x y z : Str) (n : ℕ)
    → n ≡ length z
    → (if ltb 0 n then ((c ++ x) ++ y) ++ z else (c ++ x) ++ y) ≡ c ++ (x ++ (y ++ z))
join c x y [] n h = let e : ltb 0 n ≡ false = ground arith in rw (e, append-nil, append_assoc) refl
join c x y (a ∷ z) n h =
    let e : ltb 0 n ≡ true = ground arith in
    rw e (append_assoc (c ++ x) y (a ∷ z) ∙ append_assoc c x (y ++ a ∷ z))

pub encode-header : (e : Entry) → Fits e → encode e ≡ header e ++ body e
unfolding encode header body encode_fixed16 encode_fixed32 encode_fixed64
encode-header e f = join (header e) e.key e.value e.extra e.extra_size f.extra_size

pub length-header : (e : Entry) → length (header e) ≡ 34
unfolding header encode_fixed16 encode_fixed32 encode_fixed64
length-header e = refl

pub length-encode :
    (e : Entry)
    → Fits e
    → length (encode e) ≡ header_size + e.key_size + e.value_size + e.extra_size
unfolding body
length-encode e f = rw (encode-header e f) (
    omega (
      arith,
      f,
      length-append {0} (header e) (body e),
      length-header e,
      length-append {0} e.key (e.value ++ e.extra),
      length-append {0} e.value e.extra,
    ))

-- `Size` is right for an entry of less than 2^32 bytes.
pub size-encode : (e : Entry) → Fits e → length (encode e) < 2 ^ 32 → length (encode e) ≡ size e
unfolding size
size-encode e f h = omega (arith, h, length-encode e f)

-- What `Decode` makes of a transaction id: it reads four bytes too early.
abbrev pub torn_tx_id : Entry → ℕ
torn_tx_id e = e.time_stamp / 2 ^ 32 + e.tx_id % 2 ^ 32 * 2 ^ 32

-- What `Decode` reads back from the header of an entry.
abbrev pub decoded : Entry → Entry → Entry
decoded x e = record {
  meta = record x.meta {
    key_size = e.key_size;
    value_size = e.value_size;
    extra_size = e.extra_size;
  };
  state = e.state;
  crc32 = crc_compute e.value;
  tx_id = torn_tx_id e;
  time_stamp = e.time_stamp;
}

pub decode-header : (x e : Entry) (rest : Str) → Fits e → decode x (header e ++ rest) ≡ decoded x e
unfolding decode header encode_fixed16 encode_fixed32 encode_fixed64
decode-header x e rest f =
    let buf = header e ++ rest in
    λ i. record {
      meta = record x.meta {
        key_size = decode_fixed32-encode_fixed32 e.key_size (drop 8 buf) f.key_word i;
        value_size = decode_fixed32-encode_fixed32 e.value_size (drop 12 buf) f.value_word i;
        extra_size = decode_fixed32-encode_fixed32 e.extra_size (drop 16 buf) f.extra_word i;
      };
      state = decode_fixed16-encode_fixed16 e.state (drop 18 buf) f.state_word i;
      crc32 =
          decode_fixed32-encode_fixed32 (crc_compute e.value) (drop 4 buf)
            (omega (arith, crc_compute-lt e.value)) i;
      tx_id = decode_fixed64-across e.time_stamp e.tx_id rest f.time_word f.tx_word i;
      time_stamp = decode_fixed64-encode_fixed64 e.time_stamp (drop 26 buf) f.time_word i;
    }

type_code-lt : (type : DataType) → type_code type < 6
type_code-lt string = omega arith
type_code-lt _ = omega arith

mark_code-lt : (mark : OperationType) → mark_code mark < 27
mark_code-lt string_set = omega arith
mark_code-lt _ = omega arith

-- The type and the operation of an entry are read back from its state.
state_parts :
    (type : DataType) (mark : OperationType)
    → (make_state type mark / 2 ^ 8 ≡ type_code type)
      × (bit_and (make_state type mark) 127 ≡ mark_code mark)
      × (make_state type mark < 2 ^ 16)
unfolding make_state
state_parts type mark =
    let t = type_code-lt type in
    let m = mark_code-lt mark in
    let s = bit_or-high_low 8 (mark_code mark) (type_code type) (omega arith) in
    rw s (
      omega arith,
      omega (arith, bit_and-mask 7 127 (mark_code mark + type_code type * 2 ^ 8) refl),
      omega arith,
    )

-- `GetType` and `GetMark` of a new entry are the type and the operation that it was made with.
pub get_type-new_entry_now :
    (now : ℕ) (key value extra : Str) (type : DataType) (mark : OperationType)
    → (get_type (new_entry_now now key value extra type mark) ≡ type_code type)
      × (get_mark (new_entry_now now key value extra type mark) ≡ mark_code mark)
unfolding get_type get_mark new_entry_now
get_type-new_entry_now now key value extra type mark =
    ((state_parts type mark).0, (state_parts type mark).1)

-- The transaction id of a new entry comes back wrong unless the upper half of its time stamp is
-- all ones.
pub torn_tx_id-new_entry_now :
    (now : ℕ) (key value extra : Str) (type : DataType) (mark : OperationType)
    → now < 2 ^ 64 - 2 ^ 32
    → torn_tx_id (new_entry_now now key value extra type mark)
      ≢ (new_entry_now now key value extra type mark).tx_id
unfolding new_entry_now
torn_tx_id-new_entry_now now key value extra type mark h e = omega arith

-- A new entry fits its fields if its strings and its time stamp do.
pub new_entry_now-Fits :
    (now : ℕ) (key value extra : Str) (type : DataType) (mark : OperationType)
    → now < 2 ^ 64
    → length key < 2 ^ 32
    → length value < 2 ^ 32
    → length extra < 2 ^ 32
    → Fits (new_entry_now now key value extra type mark)
unfolding new_entry_now
new_entry_now-Fits now key value extra type mark hn hk hv he = record {
  key_size = refl;
  value_size = refl;
  extra_size = refl;
  key_word = hk;
  value_word = hv;
  extra_word = he;
  state_word = (state_parts type mark).2;
  time_word = hn;
  tx_word = omega arith;
}

-- `Decode` of the bytes of a new entry, whose strings are shorter than 2^32 and whose time stamp is
-- below 2^64 - 2^32, returns another transaction id than the entry has.
pub decode-encode_tx_id :
    (now : ℕ) (key value extra : Str) (type : DataType) (mark : OperationType) (x : Entry)
    → now < 2 ^ 64 - 2 ^ 32
    → length key < 2 ^ 32
    → length value < 2 ^ 32
    → length extra < 2 ^ 32
    → (decode x (encode (new_entry_now now key value extra type mark))).tx_id
      ≢ (new_entry_now now key value extra type mark).tx_id
decode-encode_tx_id now key value extra type mark x h k v z same =
    let e = new_entry_now now key value extra type mark in
    let fits = new_entry_now-Fits now key value extra type mark (omega arith) k v z in
    torn_tx_id-new_entry_now now key value extra type mark h (
      ap (λ (d : Entry). d.tx_id)
        (sym (ap (λ t. decode x t) (encode-header e fits) ∙ decode-header x e (body e) fits))
      ∙ same)
