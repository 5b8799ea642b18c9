-- ===== src/Engine/Strings/Text/Refinement.antt =====
-- db_str.cpp: any run of string operations gives what a map gives.
use lightdb.Common.{Str, ℕ, Bool, Option, List, [], ◌∷◌, ◌≡◌, refl, some}
use lightdb.Common.Map.{Map}
use lightdb.Storage.Status.{Code}
use lightdb.Engine.State.{Config}
use lightdb.Engine.Strings.Steps.{StrDb, Run, ◌>>=◌, pure}
use lightdb.Engine.Strings.Access.{db_str_set, db_str_set_nx, db_get, db_get_set}
use lightdb.Engine.Strings.Updates.{db_append, db_remove}
use lightdb.Engine.Strings.Text.{
  IsText, Follows, set_text, get_text, db_str_set-Follows, db_get-Follows,
}
use lightdb.Engine.Strings.Text.Removal.{remove_text, db_remove-Follows}
use lightdb.Engine.Strings.Text.Runs.{
  set_nx_text, get_set_text, append_text, set_nx-Follows, get_set-Follows, append-Follows,
}

pub data TextOp : Type 0 where
  set_op set_nx_op get_set_op append_op : Str → Str → TextOp
  get_op remove_op : Str → TextOp

-- What an operation returns, and the variables that it writes.
pub data TextReply : Type 0 where
  code_only : Code → TextReply
  with_flag : Code × Option Bool → TextReply
  with_text : Code × Option Bool × Option Str → TextReply
  with_length : Code × Option ℕ → TextReply

abbrev pub replied {ℓ} : {A : Type ℓ} → (A → TextReply) → Run A → Run TextReply
replied f m = m >>= λ a. pure (f a)

abbrev pub perform_text : TextOp → Run TextReply
perform_text (set_op key value) = replied code_only (db_str_set key value)
perform_text (set_nx_op key value) = replied with_flag (db_str_set_nx key value)
perform_text (get_set_op key value) = replied with_text (db_get_set key value)
perform_text (append_op key value) = replied with_length (db_append key value)
perform_text (get_op key) = replied with_text (db_get key)
perform_text (remove_op key) = replied with_flag (db_remove key)

abbrev pub perform_texts : List TextOp → Run (List TextReply)
perform_texts [] = pure []
perform_texts (op ∷ ops) = do
  reply ← perform_text op
  replies ← perform_texts ops
  pure (reply ∷ replies)

-- The same operations of a map.
abbrev pub text_reply : Config → TextOp → Map Str → TextReply × Map Str
text_reply c (set_op key value) m = let (r, m1) = set_text c key value m in (code_only r, m1)
text_reply c (set_nx_op key value) m = let (r, m1) = set_nx_text c key value m in (with_flag r, m1)
text_reply c (get_set_op key value) m =
    let (r, m1) = get_set_text c key value m in (with_text r, m1)
text_reply c (append_op key value) m =
    let (r, m1) = append_text c key value m in (with_length r, m1)
text_reply c (get_op key) m = (with_text (get_text c key m), m)
text_reply c (remove_op key) m = let (r, m1) = remove_text c key m in (with_flag r, m1)

abbrev pub text_replies : Config → List TextOp → Map Str → List TextReply × Map Str
text_replies c [] m = ([], m)
text_replies c (op ∷ ops) m =
    let (reply, m1) = text_reply c op m in
    let (replies, m2) = text_replies c ops m1 in (reply ∷ replies, m2)

replied-Follows {ℓ} :
    {A : Type ℓ} (f : A → TextReply) (run : Run A) (s : StrDb) (a : A) (m : Map Str)
    → Follows (run s) s a m
    → Follows (replied f run s) s (f a) m
replied-Follows f run s a m r = record {
  end = r.end;
  result = rw (◌>>=◌, r.result) refl;
  config = r.config;
  text = r.text;
}

perform_text-Follows :
    (op : TextOp) (s : StrDb) (m : Map Str)
    → IsText s m
    → let (reply, m1) = text_reply s.db.config op m in Follows (perform_text op s) s reply m1
perform_text-Follows (set_op key value) s m t =
    replied-Follows code_only (db_str_set key value) s _ _ (db_str_set-Follows key value s m t)
perform_text-Follows (set_nx_op key value) s m t =
    replied-Follows with_flag (db_str_set_nx key value) s _ _ (set_nx-Follows key value s m t)
perform_text-Follows (get_set_op key value) s m t =
    replied-Follows with_text (db_get_set key value) s _ _ (get_set-Follows key value s m t)
perform_text-Follows (append_op key value) s m t =
    replied-Follows with_length (db_append key value) s _ _ (append-Follows key value s m t)
perform_text-Follows (get_op key) s m t =
    replied-Follows with_text (db_get key) s _ _
      (record { end = s; result = db_get-Follows key s m t; config = refl; text = t })
perform_text-Follows (remove_op key) s m t =
    replied-Follows with_flag (db_remove key) s _ _ (db_remove-Follows key s m t)

-- Where the values are kept in memory, the kernel fails no call and no string has a deadline:
-- any sequence of StrSet, StrSetNx, Get, GetSet, Append and Remove is defined, returns the
-- statuses, flags, values and lengths that the same operations on a map from keys to values
-- return, refused arguments included, and leaves the strings of that map.
pub perform_texts-text_replies :
    (ops : List TextOp) (s : StrDb) (m : Map Str)
    → IsText s m
    → (s1 : StrDb) × (perform_texts ops s ≡ some ((text_replies s.db.config ops m).0, s1))
      × (s1.db.config ≡ s.db.config)
      × IsText s1 (text_replies s.db.config ops m).1
perform_texts-text_replies [] s m t = (s, refl, refl, t)
perform_texts-text_replies (op ∷ ops) s m t =
    let first = perform_text-Follows op s m t in
    let m1 = (text_reply s.db.config op m).1 in
    let rest = perform_texts-text_replies ops first.end m1 first.text in
    let (s2, run, config, text) = rw first.config at rest in
    (s2, rw (◌>>=◌, first.result) (rw (◌>>=◌, run) refl), config, text)
