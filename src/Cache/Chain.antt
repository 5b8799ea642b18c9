-- ===== src/Cache/Chain.antt =====
-- cache/lru.h: the chain of nodes between two nodes, and what `removeNode` and `addToHead` make of it.
use lightdb.Common.{ℕ, List, [], ◌∷◌, ◌++◌, ◌≡◌, ◌≢◌, arith, sym}
use lightdb.Cache.{update}

-- The links from `a` through the nodes of a list to `b`, both ways.
abbrev pub Chain : (ℕ → ℕ) → (ℕ → ℕ) → ℕ → List ℕ → ℕ → Type 0
Chain next prev a [] b = (next a ≡ b) × (prev b ≡ a)
Chain next prev a (x ∷ xs) b = (next a ≡ x) × (prev x ≡ a) × Chain next prev x xs b

-- A node is none of a list.
abbrev pub Off : ℕ → List ℕ → Type 0
Off p [] = Unit
Off p (x ∷ xs) = (p ≢ x) × Off p xs

abbrev pub IsNoDup : List ℕ → Type 0
IsNoDup [] = Unit
IsNoDup (x ∷ xs) = Off x xs × IsNoDup xs

-- The last node before `b`, and the first after `a`.
abbrev pub last_of : ℕ → List ℕ → ℕ
last_of a [] = a
last_of a (x ∷ xs) = last_of x xs

abbrev pub first_of : List ℕ → ℕ → ℕ
first_of [] b = b
first_of (x ∷ xs) b = x

pub Chain-last :
    (next prev : ℕ → ℕ) (a b : ℕ) (xs : List ℕ) → Chain next prev a xs b → prev b ≡ last_of a xs
Chain-last next prev a b [] c = c.1
Chain-last next prev a b (x ∷ xs) c = Chain-last next prev x b xs c.2

pub Chain-first :
    (next prev : ℕ → ℕ) (a b : ℕ) (xs : List ℕ) → Chain next prev a xs b → next a ≡ first_of xs b
Chain-first next prev a b [] c = c.0
Chain-first next prev a b (x ∷ xs) c = c.0

-- A write to the `next` of a node off the chain's start and inner nodes leaves the chain.
pub Chain-next :
    (next prev : ℕ → ℕ) (a b p q : ℕ) (xs : List ℕ)
    → p ≢ a
    → Off p xs
    → Chain next prev a xs b
    → Chain (update next p q) prev a xs b
Chain-next next prev a b p q [] n o c = (ground (arith, n, c.0), c.1)
Chain-next next prev a b p q (x ∷ xs) n o c =
    (ground (arith, n, c.0), c.1, Chain-next next prev x b p q xs o.0 o.1 c.2)

pub Chain-prev :
    (next prev : ℕ → ℕ) (a b p q : ℕ) (xs : List ℕ)
    → p ≢ b
    → Off p xs
    → Chain next prev a xs b
    → Chain next (update prev p q) a xs b
Chain-prev next prev a b p q [] n o c = (c.0, ground (arith, n, c.1))
Chain-prev next prev a b p q (x ∷ xs) n o c =
    (c.0, ground (arith, o.0, c.1), Chain-prev next prev x b p q xs n o.1 c.2)

pub Chain-append :
    (next prev : ℕ → ℕ) (a b p : ℕ) (xs ys : List ℕ)
    → Chain next prev a (xs ++ p ∷ ys) b
    → Chain next prev a xs p × Chain next prev p ys b
Chain-append next prev a b p [] ys c = ((c.0, c.1), c.2)
Chain-append next prev a b p (x ∷ xs) ys c =
    let (l, r) = Chain-append next prev x b p xs ys c.2 in ((c.0, c.1, l), r)

pub Off-append : (p q : ℕ) (xs ys : List ℕ) → Off p (xs ++ q ∷ ys) → Off p xs × (p ≢ q) × Off p ys
Off-append p q [] ys o = (tt, o.0, o.1)
Off-append p q (x ∷ xs) ys o = let (l, n, r) = Off-append p q xs ys o.1 in ((o.0, l), n, r)

pub Off-last : (p x : ℕ) (xs : List ℕ) → p ≢ x → Off p xs → p ≢ last_of x xs
Off-last p x [] n o = n
Off-last p x (y ∷ xs) n o = Off-last p y xs o.0 o.1

pub Off-first : (p b : ℕ) (ys : List ℕ) → p ≢ b → Off p ys → p ≢ first_of ys b
Off-first p b [] n o = n
Off-first p b (y ∷ ys) n o = o.0

-- The ends of a chain are apart from each other and from the nodes between, which are distinct.
pub record IsPlain (a b : ℕ) (xs : List ℕ) : Type 0 where
  pub distinct : IsNoDup xs
  pub start : Off a xs
  pub stop : Off b xs
  pub apart : a ≢ b

-- The node between two chains, taken out: `next` of the node before it and `prev` of the one after.
pub Chain-remove :
    (next prev : ℕ → ℕ) (a b p : ℕ) (xs ys : List ℕ)
    → IsPlain a b (xs ++ p ∷ ys)
    → Chain next prev a (xs ++ p ∷ ys) b
    → Chain
        (update next (last_of a xs) (first_of ys b))
        (update prev (first_of ys b) (last_of a xs))
        a
        (xs ++ ys)
        b
Chain-remove next prev a b p [] [] d c = (ground arith, ground arith)
Chain-remove next prev a b p [] (y ∷ ys) d c = (
  ground arith,
  ground arith,
  Chain-prev (update next a y) prev y b y a ys (λ e. d.stop.1.0 (sym e)) d.distinct.1.0
      (Chain-next next prev y b a y ys d.start.1.0 d.start.1.1 c.2.2),
)
Chain-remove next prev a b p (x ∷ xs) ys d c =
    let (_, _, off) = Off-append x p xs ys d.distinct.0 in
    let (before, _, _) = Off-append a p xs ys d.start.1 in
    let n1 = Off-last a x xs d.start.0 before in
    let n2 = Off-first x b ys (λ e. d.stop.0 (sym e)) off in
    (
      ground (arith, n1, c.0),
      ground (arith, n2, c.1),
      Chain-remove next prev x b p xs ys
          (record {
            distinct = d.distinct.1;
            start = d.distinct.0;
            stop = d.stop.1;
            apart = λ e. d.stop.0 (sym e);
          })
          c.2,
    )

-- A new node behind the start of a chain.
pub Chain-add :
    (next prev : ℕ → ℕ) (a b p : ℕ) (xs : List ℕ)
    → IsPlain a b xs
    → Off p xs
    → p ≢ a
    → p ≢ b
    → Chain next prev a xs b
    → Chain
        (update (update next p (first_of xs b)) a p)
        (update (update prev p a) (first_of xs b) p)
        a
        (p ∷ xs)
        b
Chain-add next prev a b p [] d o na nb c =
    (ground arith, ground (arith, nb), (ground (arith, na), ground arith))
Chain-add next prev a b p (x ∷ xs) d o na nb c = (
  ground arith,
  ground (arith, o.0),
  (
    ground (arith, na),
    ground arith,
    Chain-next (update next p x) (update (update prev p a) x p) x b a p xs d.start.0 d.start.1 (
        Chain-next next (update (update prev p a) x p) x b p x xs o.0 o.1 (
          Chain-prev next (update prev p a) x b x p xs (λ e. d.stop.0 (sym e)) d.distinct.0
            (Chain-prev next prev x b p a xs nb o.1 c.2))),
  ),
)
