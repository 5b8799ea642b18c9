-- ===== src/Server/Hashes/Deletion.antt =====
-- server/cmd/cmd_hash.cpp, `hDel`: its loop reads one argument too many.
use lightdb.Storage.Status.{Code, ok}
use lightdb.Engine.State.{LightDb}
use lightdb.Engine.Hashes.{db_h_del}
use lightdb.Engine.Hashes.Deletion.{db_h_del-nothing}
use lightdb.Server.Reply.{arg}
use lightdb.Server.Hashes.{h_del_then, h_del_loop, h_del_command}
use lightdb.Common.{
  ℕ, zero, suc, ◌+◌, ◌-◌, ◌≤◌, ◌<◌, leb, Str, length, true, false, Option, none, some, List, [],
  ◌∷◌, ◌≡◌, refl, ap, arith, inl, inr, Bool-cases,
}

arg_behind : (args : List Str) (i : ℕ) → length args ≤ i → arg args i ≡ none
unfolding arg
arg_behind [] i h = refl
arg_behind (x ∷ args) i h = ground (arith, h, arg_behind args (i - 1))

module _ (wrap : Code → Str → Str) (describe : Code → List Str → Str) where
  -- A field that is there, or not, when the rest of the loop is undefined.
  h_del_round :
      (o : Option Str) (next : ℕ → LightDb → Option (Str × LightDb)) (key resp : Str) (count : ℕ)
      (d : LightDb)
      → ((c : ℕ) (x : LightDb) → next c x ≡ none)
      → elim o [
        | none ↦ none
        | some field ↦ h_del_then wrap describe next resp count (db_h_del key field d)
      ]
        ≡ none
  h_del_round none next key resp count d h = refl
  h_del_round (some field) next key resp count d h =
      let good : ok (db_h_del key field d).0.0 ≡ true =
        ap (λ (r : Code × ℕ). ok r.0) (db_h_del-nothing key field d) in
      rw good (h (count + (db_h_del key field d).0.1) (db_h_del key field d).1)

  -- A loop with a round for an index behind the arguments.
  h_del_loop-none :
      (n : ℕ) (args : List Str) (key : Str) (i : ℕ) (resp : Str) (count : ℕ) (d : LightDb)
      → length args < i + n
      → i ≤ length args
      → h_del_loop wrap describe n args key i resp count d ≡ none
  unfolding h_del_loop
  h_del_loop-none zero args key i resp count d h k = absurd (omega (arith, h, k))
  h_del_loop-none (suc n) args key i resp count d h k =
      let next = h_del_loop wrap describe n args key (suc i) resp in
      elim (Bool-cases (leb (length args) i)) [
        | inl behind ↦
            ap
              (λ (o : Option Str). elim o [
                | none ↦ none
                | some field ↦ h_del_then wrap describe next resp count (db_h_del key field d)
              ])
              (arg_behind args i (ground (arith, behind)))
        | inr inside ↦ h_del_round (arg args i) next key resp count d (λ c x.
            h_del_loop-none n args key (suc i) resp c x (omega (arith, h)) (ground (arith, inside)))
      ]

  -- The command hdel with at least one field reads behind the end of its arguments, in every
  -- state.
  pub h_del_command-none :
      (key field : Str) (fields : List Str) (resp : Str) (d : LightDb)
      → h_del_command wrap describe (key ∷ field ∷ fields) resp d ≡ none
  unfolding h_del_command
  h_del_command-none key field fields resp d =
      let args = key ∷ field ∷ fields in
      let enough : leb (length args) 1 ≡ false = ground arith in
      rw enough (h_del_loop-none (length args) args key 1 resp 0 d (omega arith) (omega arith))
