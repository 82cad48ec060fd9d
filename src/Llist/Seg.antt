-- ===== src/Llist/Seg.antt =====
-- The nodes of a list on the heap, and what a write to one of their pointers does.
use c_ares.Base.{
  ℕ, ◌≡◌, ◌≢◌, refl, sym, ◌∙◌, ap, arith, true, false, List, [], ◌∷◌, ◌++◌, Option, none, some,
  length, All, ◌==◌,
}
use c_ares.Result.{ok}
use c_ares.Llist.{Node, Heap, LinkedList, write, set_prev, set_next}

-- an address and the value of the node there
abbrev pub Item : Type 0
Item = ℕ × ℕ

abbrev pub first : Option ℕ → List Item → Option ℕ
first nxt [] = nxt
first nxt (x ∷ xs) = some x.0

abbrev pub last : Option ℕ → List Item → Option ℕ
last prv [] = prv
last prv (x ∷ xs) = last (some x.0) xs

-- the nodes between `prv` and `nxt`
abbrev pub Seg : Heap → Option ℕ → Option ℕ → List Item → Type 0
Seg h prv nxt [] = Unit
Seg h prv nxt (x ∷ xs) =
    (h x.0 ≡ some (record { content = x.1; prev = prv; next = first nxt xs }))
    × Seg h (some x.0) nxt xs

abbrev pub Apart : ℕ → List Item → Type 0
Apart p xs = All (λ x. x.0 ≢ p) xs

abbrev pub Distinct : List Item → Type 0
Distinct [] = Unit
Distinct (x ∷ xs) = Apart x.0 xs × Distinct xs

-- Two heaps differ at most in these nodes.
abbrev pub Frame : Heap → Heap → List Item → Type 0
Frame h h' xs = (q : ℕ) → Apart q xs → h' q ≡ h q

pub record IsList (h : Heap) (l : LinkedList) (xs : List Item) : Type 0 where
  pub nodes : Seg h none none xs
  pub distinct : Distinct xs
  pub head : l.head ≡ first none xs
  pub tail : l.tail ≡ last none xs
  pub count : l.cnt ≡ length xs

pub write-other : (h : Heap) (p : ℕ) (n : Option Node) (q : ℕ) → q ≢ p → write h p n q ≡ h q
write-other h p n q ne = let e : (q == p) ≡ false = ground arith in rw e refl

pub write-same : (h : Heap) (p : ℕ) (n : Option Node) → write h p n p ≡ n
write-same h p n = let e : (p == p) ≡ true = ground arith in rw e refl

-- Nodes that were not written to are as they were.
pub Seg-agrees :
    (h h' : Heap) (prv nxt : Option ℕ) (xs : List Item)
    → All (λ x. h' x.0 ≡ h x.0) xs
    → Seg h prv nxt xs
    → Seg h' prv nxt xs
Seg-agrees h h' prv nxt [] same seg = tt
Seg-agrees h h' prv nxt (x ∷ xs) same seg =
    (same.0 ∙ seg.0, Seg-agrees h h' (some x.0) nxt xs same.1 seg.1)

pub agrees-write :
    (h : Heap) (p : ℕ) (n : Option Node) (xs : List Item)
    → Apart p xs
    → All (λ x. write h p n x.0 ≡ h x.0) xs
agrees-write h p n [] apart = tt
agrees-write h p n (x ∷ xs) apart = (write-other h p n x.0 apart.0, agrees-write h p n xs apart.1)

pub Seg-append :
    (h : Heap) (prv nxt : Option ℕ) (xs ys : List Item)
    → Seg h prv (first nxt ys) xs
    → Seg h (last prv xs) nxt ys
    → Seg h prv nxt (xs ++ ys)
Seg-append h prv nxt [] ys left right = right
Seg-append h prv nxt (x ∷ []) ys left right = (left.0, right)
Seg-append h prv nxt (x ∷ y ∷ xs) ys left right =
    (left.0, Seg-append h (some x.0) nxt (y ∷ xs) ys left.1 right)

pub append-Seg :
    (h : Heap) (prv nxt : Option ℕ) (xs ys : List Item)
    → Seg h prv nxt (xs ++ ys)
    → Seg h prv (first nxt ys) xs × Seg h (last prv xs) nxt ys
append-Seg h prv nxt [] ys seg = (tt, seg)
append-Seg h prv nxt (x ∷ []) ys seg = ((seg.0, tt), seg.1)
append-Seg h prv nxt (x ∷ y ∷ xs) ys seg =
    let rest = append-Seg h (some x.0) nxt (y ∷ xs) ys seg.1 in ((seg.0, rest.0), rest.1)

-- `p->next = v` for the last node
pub set_next-last :
    (h : Heap) (prv nxt v : Option ℕ) (x : Item) (xs : List Item)
    → Distinct (x ∷ xs)
    → Seg h prv nxt (x ∷ xs)
    → (h' : Heap) × (set_next h (last prv (x ∷ xs)) v ≡ ok h')
      × Seg h' prv v (x ∷ xs)
      × Frame h h' (x ∷ xs)
unfolding set_next
set_next-last h prv nxt v x [] apart seg = (
  write h x.0 (some (record { content = x.1; prev = prv; next = v })),
  rw seg.0 refl,
  (write-same h x.0 _, tt),
  λ q a. write-other h x.0 _ q (λ e. a.0 (sym e)),
)
set_next-last h prv nxt v x (y ∷ xs) apart seg =
    let (h', run, seg', frame) = set_next-last h (some x.0) nxt v y xs apart.1 seg.1 in
    (h', run, (frame x.0 apart.0 ∙ seg.0, seg'), λ q a. frame q a.1)

-- `p->prev = v` for the first node
pub set_prev-first :
    (h : Heap) (prv nxt v : Option ℕ) (x : Item) (xs : List Item)
    → Distinct (x ∷ xs)
    → Seg h prv nxt (x ∷ xs)
    → (h' : Heap) × (set_prev h (some x.0) v ≡ ok h') × Seg h' v nxt (x ∷ xs) × Frame h h' (x ∷ xs)
unfolding set_prev
set_prev-first h prv nxt v x xs apart seg =
    let n : Node = record { content = x.1; prev = v; next = first nxt xs } in
    (
      write h x.0 (some n),
      rw seg.0 refl,
      (
        write-same h x.0 (some n),
        Seg-agrees h (write h x.0 (some n)) (some x.0) nxt xs
            (agrees-write h x.0 (some n) xs apart.0) seg.1,
      ),
      λ q a. write-other h x.0 (some n) q (λ e. a.0 (sym e)),
    )

-- The nodes of two lists are different.
abbrev pub Separate : List Item → List Item → Type 0
Separate xs ys = All (λ y. Apart y.0 xs) ys

pub Frame-agrees :
    (h h' : Heap) (xs ys : List Item)
    → Frame h h' xs
    → Separate xs ys
    → All (λ y. h' y.0 ≡ h y.0) ys
Frame-agrees h h' xs [] frame apart = tt
Frame-agrees h h' xs (y ∷ ys) frame apart =
    (frame y.0 apart.0, Frame-agrees h h' xs ys frame apart.1)

pub Apart-append : (p : ℕ) (xs ys : List Item) → Apart p (xs ++ ys) → Apart p xs × Apart p ys
Apart-append p [] ys a = (tt, a)
Apart-append p (x ∷ xs) ys a = let rest = Apart-append p xs ys a.1 in ((a.0, rest.0), rest.1)

pub append-Apart : (p : ℕ) (xs ys : List Item) → Apart p xs → Apart p ys → Apart p (xs ++ ys)
append-Apart p [] ys a b = b
append-Apart p (x ∷ xs) ys a b = (a.0, append-Apart p xs ys a.1 b)

pub Apart-sym : (p : ℕ) (xs : List Item) → Apart p xs → All (λ x. p ≢ x.0) xs
Apart-sym p [] a = tt
Apart-sym p (x ∷ xs) a = (λ e. a.0 (sym e), Apart-sym p xs a.1)

Separate-cons :
    (x : Item) (xs ys : List Item) → Apart x.0 ys → Separate xs ys → Separate (x ∷ xs) ys
Separate-cons x xs [] a s = tt
Separate-cons x xs (y ∷ ys) a s = ((λ e. a.0 (sym e), s.0), Separate-cons x xs ys a.1 s.1)

pub Distinct-append :
    (xs ys : List Item) → Distinct (xs ++ ys) → Distinct xs × Distinct ys × Separate xs ys
Distinct-append [] ys d = (tt, d, all_apart ys)
  where
    all_apart : (ys : List Item) → Separate [] ys
    all_apart [] = tt
    all_apart (y ∷ ys) = (tt, all_apart ys)
Distinct-append (x ∷ xs) ys d =
    let parts = Apart-append x.0 xs ys d.0 in
    let rest = Distinct-append xs ys d.1 in
    ((parts.0, rest.0), rest.1, Separate-cons x xs ys parts.1 rest.2)

-- the first list has nothing of the second one
Separate-front :
    (x : Item) (xs ys : List Item) → Separate (x ∷ xs) ys → Apart x.0 ys × Separate xs ys
Separate-front x xs [] s = (tt, tt)
Separate-front x xs (y ∷ ys) s =
    let rest = Separate-front x xs ys s.1 in ((λ e. s.0.0 (sym e), rest.0), (s.0.1, rest.1))

pub append-Distinct :
    (xs ys : List Item) → Distinct xs → Distinct ys → Separate xs ys → Distinct (xs ++ ys)
append-Distinct [] ys d e s = e
append-Distinct (x ∷ xs) ys d e s =
    let parts = Separate-front x xs ys s in
    (append-Apart x.0 xs ys d.0 parts.0, append-Distinct xs ys d.1 e parts.1)

-- the other way round
pub Separate-sym : (xs ys : List Item) → Separate xs ys → Separate ys xs
Separate-sym [] ys s = tt
Separate-sym (x ∷ xs) ys s =
    let parts = Separate-front x xs ys s in (parts.0, Separate-sym xs ys parts.1)

-- An address without a node is not in the list.
pub free-Apart :
    (h : Heap) (prv nxt : Option ℕ) (p : ℕ) (xs : List Item)
    → h p ≡ none
    → Seg h prv nxt xs
    → Apart p xs
free-Apart h prv nxt p [] free seg = tt
free-Apart h prv nxt p (x ∷ xs) free seg = (
  λ e. absurd (let n : none ≡ some _ = sym free ∙ ap h (sym e) ∙ seg.0 in cc n),
  free-Apart h (some x.0) nxt p xs free seg.1,
)

pub last-append : (prv : Option ℕ) (xs ys : List Item) → last prv (xs ++ ys) ≡ last (last prv xs) ys
last-append prv [] ys = refl
last-append prv (x ∷ xs) ys = last-append (some x.0) xs ys
