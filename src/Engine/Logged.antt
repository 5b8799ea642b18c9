-- ===== src/Engine/Logged.antt =====
-- lightdb.cpp, `store`: the files of one type hold the entries that were stored, in order.
use lightdb.Storage.Entry.{Entry, size, encode}
use lightdb.Storage.Entry.RoundTrip.{size-encode}
use lightdb.Storage.File.{DbFile, appended}
use lightdb.Storage.File.Entries.{All, encode_all, Holds, HoldAll, Within, flatten, appended-Holds}
use lightdb.Engine.Index.Indexed.{Loadable}
use lightdb.Engine.State.{new_file, archive}
use mathlib.Core.Path.{subst}
use mathlib.Core.List.{append_assoc, append-nil}
use lightdb.Common.{
  ℕ, suc, ◌+◌, ◌≤◌, ◌<◌, length, length-append, List, [], ◌∷◌, ◌++◌, ◌≡◌, refl, sym, ap, ◌∙◌, arith,
}

-- Every entry begins at most a block into its file.
pub record Logged (block : ℕ) (archived : List DbFile) (active : DbFile) (log : List Entry)
    : Type 0 where
  pub older : List (List Entry)
  pub last : List Entry
  pub older_held : HoldAll archived older
  pub last_held : Holds active last
  pub ids : All (λ (f : DbFile). f.id < active.id) archived
  pub older_within : All (Within (suc block) 0) older
  pub last_within : Within (suc block) 0 last
  pub older_loadable : All (All Loadable) older
  pub last_loadable : All Loadable last
  pub whole : log ≡ flatten older ++ last

pub All-append {ℓ κ} :
    {A : Type ℓ} (P : A → Type κ) (xs : List A) (x : A) → All P xs → P x → All P (xs ++ x ∷ [])
All-append P [] x h p = (p, tt)
All-append P (y ∷ xs) x (q, h) p = (q, All-append P xs x h p)

pub HoldAll-append :
    (fs : List DbFile) (ess : List (List Entry)) (f : DbFile) (es : List Entry)
    → HoldAll fs ess
    → Holds f es
    → HoldAll (fs ++ f ∷ []) (ess ++ es ∷ [])
HoldAll-append [] [] f es h k = (k, tt)
HoldAll-append [] (ds ∷ ess) f es h k = elim h [ ]
HoldAll-append (g ∷ fs) [] f es h k = elim h [ ]
HoldAll-append (g ∷ fs) (ds ∷ ess) f es (h, hs) k = (h, HoldAll-append fs ess f es hs k)

pub flatten-append {ℓ} :
    {A : Type ℓ} (xss : List (List A)) (xs : List A) → flatten (xss ++ xs ∷ []) ≡ flatten xss ++ xs
flatten-append [] xs = append-nil xs
flatten-append (ys ∷ xss) xs =
    ap (λ t. ys ++ t) (flatten-append xss xs) ∙ sym (append_assoc ys (flatten xss) xs)

-- A file with a greater id than all archived ones is put behind them.
pub archive-last :
    (f : DbFile) (fs : List DbFile)
    → All (λ (g : DbFile). g.id < f.id) fs
    → archive f fs ≡ fs ++ f ∷ []
unfolding archive
archive-last f [] h = refl
archive-last f (g ∷ fs) (h, hs) = ground (arith, h, archive-last f fs hs)

Within-append :
    (b o : ℕ) (es : List Entry) (e : Entry)
    → Within b o es
    → All Loadable es
    → o + length (encode_all es) < b
    → Within b o (es ++ e ∷ [])
Within-append b o [] e w l h = (omega (arith, h), tt)
Within-append b o (d ∷ es) e (w, ws) (l, ls) h = (
  w,
  Within-append b (o + size d) es e ws ls (
      omega (arith, h, size-encode d l.fits l.sized, length-append {0} (encode d) (encode_all es))),
)

All-lt :
    (a b : ℕ) (fs : List DbFile)
    → a ≤ b
    → All (λ (g : DbFile). g.id < a) fs
    → All (λ (g : DbFile). g.id < b) fs
All-lt a b [] h k = tt
All-lt a b (f ∷ fs) h (k, ks) = (omega (arith, h, k), All-lt a b fs h ks)

-- The active file moves behind the archived ones.
pub rotated-Logged :
    (block : ℕ) (archived : List DbFile) (active : DbFile) (log : List Entry)
    → Logged block archived active log
    → Logged block (archive active archived) (new_file (active.id + 1)) log
rotated-Logged block archived active log h = record {
  older = h.older ++ h.last ∷ [];
  last = [];
  older_held =
      subst (λ fs. HoldAll fs (h.older ++ h.last ∷ [])) (sym (archive-last active archived h.ids))
        (HoldAll-append archived h.older active h.last h.older_held h.last_held);
  last_held = (refl, refl);
  ids =
      subst (All (λ (f : DbFile). f.id < active.id + 1)) (sym (archive-last active archived h.ids))
        (All-append (λ (f : DbFile). f.id < active.id + 1) archived active
          (All-lt active.id (active.id + 1) archived (omega arith) h.ids) (omega arith));
  older_within = All-append (Within (suc block) 0) h.older h.last h.older_within h.last_within;
  last_within = tt;
  older_loadable = All-append (All Loadable) h.older h.last h.older_loadable h.last_loadable;
  last_loadable = tt;
  whole =
      h.whole
      ∙ sym (flatten-append h.older h.last)
      ∙ sym (append-nil (flatten (h.older ++ h.last ∷ [])));
}

-- One more entry at the end of an active file that is not longer than a block.
pub appended-Logged :
    (block : ℕ) (archived : List DbFile) (active : DbFile) (log : List Entry) (e : Entry)
    → Logged block archived active log
    → Loadable e
    → active.write_offset ≤ block
    → Logged block archived (appended active (encode e)) (log ++ e ∷ [])
appended-Logged block archived active log e h l room = record {
  older = h.older;
  last = h.last ++ e ∷ [];
  older_held = h.older_held;
  last_held = appended-Holds active h.last e h.last_held;
  ids = h.ids;
  older_within = h.older_within;
  last_within =
      Within-append (suc block) 0 h.last e h.last_within h.last_loadable
        (omega (arith, room, h.last_held.1, ap length h.last_held.0));
  older_loadable = h.older_loadable;
  last_loadable = All-append Loadable h.last e h.last_loadable l;
  whole = ap (λ t. t ++ e ∷ []) h.whole ∙ append_assoc (flatten h.older) h.last (e ∷ []);
}
