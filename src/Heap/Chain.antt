-- ===== src/Heap/Chain.antt =====
-- Doubly linked chains of nodes, and the blocks that `kmalloc` has left.
use guide_os.Prelude.{
  ◌≡◌, refl, ◌≢◌, ◌∙◌, Bool, true, false, ◌||◌, Option, none, some, List, [], ◌∷◌, ◌++◌, arith,
  ◌==◌,
}
use guide_os.Heap.{Ptr, null, Node, node, Cells, write}

-- Address and item of each node, in order.
abbrev pub Nodes : Type 0
Nodes = List (Ptr × Ptr)

abbrev pub has : Ptr → Nodes → Bool
has a [] = false
has a ((p, _) ∷ xs) = (a == p) || has a xs

abbrev pub first : Nodes → Ptr → Ptr
first [] after = after
first ((p, _) ∷ xs) after = p

abbrev pub last : Ptr → Nodes → Ptr
last before [] = before
last before ((p, _) ∷ xs) = last p xs

abbrev pub items : Nodes → List Ptr
items [] = []
items ((_, d) ∷ xs) = d ∷ items xs

abbrev pub contains : Ptr → List Ptr → Bool
contains a [] = false
contains a (p ∷ ps) = (a == p) || contains a ps

-- From `before` to `after` the pointers lead through the distinct nodes `xs`, both ways.
abbrev pub Chain : Cells → Ptr → Nodes → Ptr → Type 0
Chain c before [] after = Unit
Chain c before ((p, d) ∷ xs) after =
    (p ≢ null)
    × (c p ≡ some (node d (first xs after) before))
    × (has p xs ≡ false)
    × Chain c p xs after

abbrev pub Apart : Nodes → Nodes → Type 0
Apart [] ys = Unit
Apart ((p, _) ∷ xs) ys = (has p ys ≡ false) × Apart xs ys

pub first-append : (xs ys : Nodes) (a : Ptr) → first (xs ++ ys) a ≡ first xs (first ys a)
first-append [] ys a = refl
first-append (x ∷ xs) ys a = refl

pub last-append : (b : Ptr) (xs ys : Nodes) → last b (xs ++ ys) ≡ last (last b xs) ys
last-append b [] ys = refl
last-append b ((p, d) ∷ xs) ys = last-append p xs ys

pub has-append : (a : Ptr) (xs ys : Nodes) → has a (xs ++ ys) ≡ (has a xs || has a ys)
has-append a [] ys = refl
has-append a ((p, d) ∷ xs) ys = ground (arith, has-append a xs ys)

pub Chain-write :
    (c : Cells) (p : Ptr) (v : Option Node) (b : Ptr) (xs : Nodes) (a : Ptr)
    → has p xs ≡ false
    → Chain c b xs a
    → Chain (write c p v) b xs a
unfolding write
Chain-write c p v b [] a out h = tt
Chain-write c p v b ((q, d) ∷ xs) a out h =
    (h.0, ground arith, h.2, Chain-write c p v q xs a (ground arith) h.3)

pub Chain-split :
    (c : Cells) (b : Ptr) (xs ys : Nodes) (a : Ptr)
    → Chain c b (xs ++ ys) a
    → Chain c b xs (first ys a) × Chain c (last b xs) ys a × Apart xs ys
Chain-split c b [] ys a h = (tt, h, tt)
Chain-split c b ((p, d) ∷ xs) ys a (ne, holds, out, rest) =
    let (left, right, apart) = Chain-split c p xs ys a rest in
    (
      (ne, rw (first-append xs ys a) at holds, ground (arith, has-append p xs ys), left),
      right,
      (ground (arith, has-append p xs ys), apart),
    )

pub Chain-join :
    (c : Cells) (b : Ptr) (xs ys : Nodes) (a : Ptr)
    → Chain c b xs (first ys a)
    → Chain c (last b xs) ys a
    → Apart xs ys
    → Chain c b (xs ++ ys) a
Chain-join c b [] ys a left right apart = right
Chain-join c b ((p, d) ∷ xs) ys a (ne, holds, out, left) right (apart, aparts) = (
  ne,
  rw (first-append xs ys a) holds,
  ground (arith, has-append p xs ys),
  Chain-join c p xs ys a left right aparts,
)

pub not-has_of_Apart : (t d : Ptr) (xs ys : Nodes) → Apart xs ((t, d) ∷ ys) → has t xs ≡ false
not-has_of_Apart t d [] ys h = refl
not-has_of_Apart t d ((p, e) ∷ xs) ys h = ground (arith, not-has_of_Apart t d xs ys h.1, h.0)

pub Apart-tail : (t d : Ptr) (xs ys : Nodes) → Apart xs ((t, d) ∷ ys) → Apart xs ys
Apart-tail t d [] ys h = tt
Apart-tail t d ((p, e) ∷ xs) ys h = (ground (arith, h.0), Apart-tail t d xs ys h.1)

pub Apart-nil : (xs : Nodes) → Apart xs []
Apart-nil [] = tt
Apart-nil ((p, d) ∷ xs) = (refl, Apart-nil xs)

-- The end of a chain is redirected by a write of its last node's `next`.
pub Chain-set_next :
    (c : Cells) (b : Ptr) (us : Nodes) (t d a a' : Ptr)
    → Chain c b (us ++ ((t, d) ∷ [])) a
    → (c t ≡ some (node d a (last b us)))
      × (t ≢ null)
      × Chain (write c t (some (node d a' (last b us)))) b (us ++ ((t, d) ∷ [])) a'
unfolding write
Chain-set_next c b us t d a a' h =
    let (left, (ne, holds, _, _), apart) = Chain-split c b us ((t, d) ∷ []) a h in
    (
      holds,
      ne,
      Chain-join (write c t (some (node d a' (last b us)))) b us ((t, d) ∷ []) a'
          (Chain-write c t (some (node d a' (last b us))) b us t (not-has_of_Apart t d us [] apart)
            left)
          (ne, ground arith, refl, tt) apart,
    )

-- The start of a chain is redirected by a write of its first node's `prev`.
pub Chain-set_prev :
    (c : Cells) (b b' t d : Ptr) (xs : Nodes) (a : Ptr)
    → Chain c b ((t, d) ∷ xs) a
    → Chain (write c t (some (node d (first xs a) b'))) b' ((t, d) ∷ xs) a
unfolding write
Chain-set_prev c b b' t d xs a (ne, holds, out, rest) =
    (ne, ground arith, out, Chain-write c t (some (node d (first xs a) b')) t xs a out rest)

-- The blocks of the pool are distinct, not NULL, and in use by nobody.
abbrev pub Free : Cells → List Ptr → Type 0
Free c [] = Unit
Free c (p ∷ ps) = (p ≢ null) × (c p ≡ none) × (contains p ps ≡ false) × Free c ps

pub Free-write :
    (c : Cells) (p : Ptr) (v : Option Node) (ps : List Ptr)
    → contains p ps ≡ false
    → Free c ps
    → Free (write c p v) ps
unfolding write
Free-write c p v [] out h = tt
Free-write c p v (q ∷ ps) out h = (h.0, ground arith, h.2, Free-write c p v ps (ground arith) h.3)

-- A node of a chain is no free block, and a free block no node.
pub not-has_of_none :
    (c : Cells) (p b : Ptr) (xs : Nodes) (a : Ptr) → c p ≡ none → Chain c b xs a → has p xs ≡ false
not-has_of_none c p b [] a unused h = refl
not-has_of_none c p b ((q, d) ∷ xs) a unused (ne, holds, out, rest) =
    ground (arith, not-has_of_none c p q xs a unused rest)

pub not-contains_of_some :
    (c : Cells) (p : Ptr) (n : Node) (ps : List Ptr)
    → c p ≡ some n
    → Free c ps
    → contains p ps ≡ false
not-contains_of_some c p n [] used h = refl
not-contains_of_some c p n (q ∷ ps) used h = ground (arith, not-contains_of_some c p n ps used h.3)

pub Apart-single : (p d : Ptr) (xs : Nodes) → has p xs ≡ false → Apart xs ((p, d) ∷ [])
Apart-single p d [] h = tt
Apart-single p d ((q, e) ∷ xs) h = (ground arith, Apart-single p d xs (ground arith))

pub ne_of_snoc :
    (p t d : Ptr) (us : Nodes) → has p (us ++ ((t, d) ∷ [])) ≡ false → (p ≢ t) × (has p us ≡ false)
ne_of_snoc p t d [] h = ground arith
ne_of_snoc p t d ((q, e) ∷ us) h = ground (arith, ne_of_snoc p t d us)

pub first-snoc :
    (us : Nodes) (t d a a' : Ptr) → first (us ++ ((t, d) ∷ [])) a ≡ first (us ++ ((t, d) ∷ [])) a'
first-snoc [] t d a a' = refl
first-snoc (x ∷ us) t d a a' = refl

pub ne_of_cons :
    (p t d : Ptr) (xs : Nodes) → has p ((t, d) ∷ xs) ≡ false → (p ≢ t) × (has p xs ≡ false)
ne_of_cons p t d xs h = ground arith

-- A node is at no address of another node, or of none.
pub ne_of_holds : (c : Cells) (p a : Ptr) (n : Node) → c p ≡ some n → c a ≡ none → a ≢ p
ne_of_holds c p a n h k e = cc

pub Chain-frame :
    (c c' : Cells) (b : Ptr) (xs : Nodes) (a : Ptr)
    → ((p : Ptr) → has p xs ≡ true → c' p ≡ c p)
    → Chain c b xs a
    → Chain c' b xs a
Chain-frame c c' b [] a same h = tt
Chain-frame c c' b ((q, d) ∷ xs) a same (ne, holds, out, rest) = (
  ne,
  same q (ground arith) ∙ holds,
  out,
  Chain-frame c c' q xs a (λ p i. same p (ground arith)) rest,
)

pub Free-frame :
    (c c' : Cells) (ps : List Ptr) → ((p : Ptr) → c p ≡ none → c' p ≡ c p) → Free c ps → Free c' ps
Free-frame c c' [] same h = tt
Free-frame c c' (p ∷ ps) same (ne, unused, out, rest) =
    (ne, same p unused ∙ unused, out, Free-frame c c' ps same rest)

pub not-has_right : (p : Ptr) (xs ys : Nodes) → Apart xs ys → has p xs ≡ true → has p ys ≡ false
not-has_right p [] ys apart i = cc
not-has_right p ((q, d) ∷ xs) ys apart i = ground (arith, not-has_right p xs ys apart.1)

pub not-has_left : (p : Ptr) (xs ys : Nodes) → Apart xs ys → has p ys ≡ true → has p xs ≡ false
not-has_left p [] ys apart i = refl
not-has_left p ((q, d) ∷ xs) ys apart i = ground (arith, not-has_left p xs ys apart.1)

pub has_around :
    (a t d : Ptr) (us vs : Nodes)
    → has a (us ++ ((t, d) ∷ vs)) ≡ false
    → (has a us ≡ false) × (a ≢ t) × (has a vs ≡ false)
has_around a t d [] vs h = ground arith
has_around a t d ((q, e) ∷ us) vs h = ground (arith, has_around a t d us vs)
