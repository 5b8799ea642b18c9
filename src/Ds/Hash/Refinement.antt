-- ===== src/Ds/Hash/Refinement.antt =====
-- Any sequence of writes of `Hash` against the function from keys and fields to values.
use lightdb.Common.{
  Str, ◌≡◌, refl, ap, ◌∙◌, Option, none, some, List, [], ◌∷◌, arith, if◌then◌else◌, str_eq,
  Bool-cases, inl, inr,
}
use mathlib.Core.Path.{fun_ext}
use lightdb.Ds.Hash.{Hash, h_set, h_set_nx, h_get, h_del, h_exist, h_clear}
use lightdb.Ds.Hash.Size.{IsValid, h_set-IsValid, h_del-IsValid, h_clear-IsValid}
use lightdb.Ds.Hash.View.{h_get-h_set, h_get-h_del, h_get-h_clear, h_exist-h_get, h_set_nx-h_set}

pub data Write : Type 0 where
  set set_nx : Str → Str → Str → Write
  del : Str → Str → Write
  clear : Str → Write

unfoldable pub apply : Hash → Write → Hash
apply h (set k f v) = (h_set h k f v).0
apply h (set_nx k f v) = (h_set_nx h k f v).0
apply h (del k f) = (h_del h k f).0
apply h (clear k) = (h_clear h k).0

unfoldable pub run : Hash → List Write → Hash
unfolding apply
run h [] = h
run h (w ∷ ws) = run (apply h w) ws

-- The specification: what each key and field reads as.
abbrev pub Fields : Type 0
Fields = Str → Str → Option Str

abbrev pub no_fields : Fields
no_fields k f = none

abbrev write : Fields → Str → Str → Option Str → Fields
write s key field v k f = if str_eq key k then (if str_eq field f then v else s k f) else s k f

unfoldable pub specify : Fields → Write → Fields
specify s (set key field v) = write s key field (some v)
specify s (set_nx key field v) = elim (s key field) [
  | none ↦ write s key field (some v)
  | some w ↦ s
]
specify s (del key field) = write s key field none
specify s (clear key) = λ k f. if str_eq key k then none else s k f

unfoldable pub specify_all : Fields → List Write → Fields
unfolding specify
specify_all s [] = s
specify_all s (w ∷ ws) = specify_all (specify s w) ws

apply-specify_at :
    (h : Hash) (w : Write) (k f : Str) → h_get (apply h w) k f ≡ specify (h_get h) w k f
unfolding apply specify
apply-specify_at h (set key field v) k f = h_get-h_set h key field k f v
apply-specify_at h (set_nx key field v) k f =
    ground (
      arith,
      h_set_nx-h_set h key field v,
      h_exist-h_get h key field,
      h_get-h_set h key field k f v,
    )
apply-specify_at h (del key field) k f = h_get-h_del h key field k f
apply-specify_at h (clear key) k f = h_get-h_clear h key k f

-- A write of the code is the write of the specification.
pub apply-specify : (h : Hash) (w : Write) → h_get (apply h w) ≡ specify (h_get h) w
apply-specify h w = fun_ext λ k. fun_ext λ f. apply-specify_at h w k f

-- Whatever the sequence of writes, a read of the code is a read of the specification.
pub run-specify_all : (h : Hash) (ws : List Write) → h_get (run h ws) ≡ specify_all (h_get h) ws
unfolding run specify_all
run-specify_all h [] = refl
run-specify_all h (w ∷ ws) =
    run-specify_all (apply h w) ws ∙ ap (λ s. specify_all s ws) (apply-specify h w)

h_set_nx-IsValid : (h : Hash) (k f x : Str) → IsValid h → IsValid (h_set_nx h k f x).0
h_set_nx-IsValid h k f x v = elim (Bool-cases (h_exist h k f)) [
  | inl e ↦ rw (h_set_nx-h_set h k f x, e) v
  | inr e ↦ rw (h_set_nx-h_set h k f x, e) (h_set-IsValid h k f x v)
]

apply-IsValid : (h : Hash) (w : Write) → IsValid h → IsValid (apply h w)
unfolding apply
apply-IsValid h (set k f x) v = h_set-IsValid h k f x v
apply-IsValid h (set_nx k f x) v = h_set_nx-IsValid h k f x v
apply-IsValid h (del k f) v = h_del-IsValid h k f v
apply-IsValid h (clear k) v = h_clear-IsValid h k v

-- No sequence of writes makes a key or a field occur twice.
pub run-IsValid : (h : Hash) (ws : List Write) → IsValid h → IsValid (run h ws)
unfolding run
run-IsValid h [] v = v
run-IsValid h (w ∷ ws) v = run-IsValid (apply h w) ws (apply-IsValid h w v)
