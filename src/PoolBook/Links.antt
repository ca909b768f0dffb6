-- ===== src/PoolBook/Links.antt =====
-- src/orderbooks/pool_order_book.cpp: the levels as doubly linked lists of slots. A node stands for a slot:
-- its cell is the slot's index.
use hft_orderbook_benchmark.Common.{
  ℕ, ◌<◌, ◌≡◌, ◌≢◌, refl, sym, ap, ◌∙◌, List, [], ◌∷◌, ◌++◌, some, arith, All, All-append,
  get_elem?, set,
}
use hft_orderbook_benchmark.Containers.OrderList.{Node}
use hft_orderbook_benchmark.PoolBook.{OrderNode, null_idx}
use hft_orderbook_benchmark.PoolBook.Slots.{get_elem-set_same, get_elem-set_other}

-- The links from the slot `i` on, behind the slot `prev`, lead through the nodes to `tail`, and back.
abbrev pub IsLinked : List OrderNode → ℕ → ℕ → List Node → ℕ → Type 0
IsLinked ns prev i [] tail = (i ≡ null_idx) × (tail ≡ prev)
IsLinked ns prev i (n ∷ ms) tail =
    (i ≡ n.cell)
    × (n.cell < null_idx)
    × All (λ k. n.cell ≢ k.cell) ms
    × ((m : OrderNode) × (get_elem? ns n.cell ≡ some m)
        × (m.order ≡ some n.order)
        × (m.prev ≡ prev)
        × IsLinked ns n.cell m.next ms tail)

-- A slot of no node may be written.
pub IsLinked-set :
    (ns : List OrderNode) (j : ℕ) (w : OrderNode) (prev i : ℕ) (xs : List Node) (tail : ℕ)
    → All (λ k. j ≢ k.cell) xs
    → IsLinked ns prev i xs tail
    → IsLinked (set ns j w) prev i xs tail
IsLinked-set ns j w prev i [] tail a v = v
IsLinked-set ns j w prev i (n ∷ ms) tail a v =
    let (e, b, d, (m, g, o, p, r)) = v in
    (
      e,
      b,
      d,
      (
        m,
        rw (get_elem-set_other ns j n.cell w a.0) g,
        o,
        p,
        IsLinked-set ns j w n.cell m.next ms tail a.1 r,
      ),
    )

-- The node at the end.
abbrev pub last : Node → List Node → Node
last n [] = n
last n (k ∷ ks) = last k ks

pub last-All : (P : Node → Type 0) (n : Node) (ms : List Node) → All P (n ∷ ms) → P (last n ms)
last-All P n [] a = a.0
last-All P n (k ∷ ks) a = last-All P k ks a.1

pub tail-last :
    (ns : List OrderNode) (prev i : ℕ) (n : Node) (ms : List Node) (tail : ℕ)
    → IsLinked ns prev i (n ∷ ms) tail
    → tail ≡ (last n ms).cell
tail-last ns prev i n [] tail v = let (e, b, d, (m, g, o, p, (x, y))) = v in y
tail-last ns prev i n (k ∷ ks) tail v =
    let (e, b, d, (m, g, o, p, r)) = v in tail-last ns n.cell m.next k ks tail r

-- The slot of a node holds its order.
abbrev pub IsStored : List OrderNode → Node → Type 0
IsStored ns n = (m : OrderNode) × (get_elem? ns n.cell ≡ some m) × (m.order ≡ some n.order)

pub IsLinked-IsStored :
    (ns : List OrderNode) (prev i : ℕ) (xs : List Node) (tail : ℕ)
    → IsLinked ns prev i xs tail
    → All (IsStored ns) xs
IsLinked-IsStored ns prev i [] tail v = tt
IsLinked-IsStored ns prev i (n ∷ ms) tail v =
    let (e, b, d, (m, g, o, p, r)) = v in ((m, g, o), IsLinked-IsStored ns n.cell m.next ms tail r)

pub same_order :
    (ns : List OrderNode) (n k : Node)
    → IsStored ns n
    → IsStored ns k
    → n.cell ≡ k.cell
    → n.order ≡ k.order
same_order ns n k a b e =
    let (m, g, o) = a in
    let (l, h, q) = b in
    let f : get_elem? ns n.cell ≡ get_elem? ns k.cell = ap (λ (c : ℕ). get_elem? ns c) e in
    ground (arith, f, g, h, o, q)

-- The list after a slot is linked behind its end.
abbrev pub linked_behind : ℕ → ℕ → OrderNode → OrderNode → List OrderNode → List OrderNode
linked_behind tail j u w ns =
    set (set ns tail (record u { next = j })) j (record w { prev = tail; next = null_idx })

linked_other :
    (ns : List OrderNode) (tail j c : ℕ) (u w m : OrderNode)
    → tail ≢ c
    → j ≢ c
    → get_elem? ns c ≡ some m
    → get_elem? (linked_behind tail j u w ns) c ≡ some m
linked_other ns tail j c u w m a b g =
    get_elem-set_other (set ns tail (record u { next = j })) j c
      (record w { prev = tail; next = null_idx }) b
    ∙ get_elem-set_other ns tail c (record u { next = j }) a
    ∙ g

pub IsLinked-append :
    (ns : List OrderNode) (prev i : ℕ) (n : Node) (ms : List Node) (tail : ℕ) (k : Node)
    (w : OrderNode)
    → IsLinked ns prev i (n ∷ ms) tail
    → All (λ x. k.cell ≢ x.cell) (n ∷ ms)
    → k.cell < null_idx
    → get_elem? ns k.cell ≡ some w
    → w.order ≡ some k.order
    → (u : OrderNode) × (get_elem? ns tail ≡ some u)
      × IsLinked (linked_behind tail k.cell u w ns) prev i (n ∷ (ms ++ k ∷ [])) k.cell
IsLinked-append ns prev i n [] tail k w v a b g o =
    let (e, c, d, (m, h, p, q, (x, y))) = v in
    let at : get_elem? ns tail ≡ some m = ap (λ (j : ℕ). get_elem? ns j) y ∙ h in
    let ns1 = set ns tail (record m { next = k.cell }) in
    let here = get_elem-set_same ns tail m (record m { next = k.cell }) at in
    let seen : get_elem? (linked_behind tail k.cell m w ns) n.cell
        ≡ some (record m { next = k.cell }) =
      get_elem-set_other ns1 k.cell n.cell (record w { prev = tail; next = null_idx }) a.0
      ∙ ap (λ (j : ℕ). get_elem? ns1 j) (sym y)
      ∙ here in
    let kept : get_elem? ns1 k.cell ≡ some w =
      get_elem-set_other ns tail k.cell (record m { next = k.cell }) (λ z. a.0 (sym z ∙ y)) ∙ g in
    let new = get_elem-set_same ns1 k.cell w (record w { prev = tail; next = null_idx }) kept in
    (
      m,
      at,
      (
        e,
        c,
        ((λ z. a.0 (sym z)), tt),
        (
          record m { next = k.cell },
          seen,
          p,
          q,
          (refl, b, tt, (record w { prev = tail; next = null_idx }, new, o, y, (refl, refl))),
        ),
      ),
    )
IsLinked-append ns prev i n (x ∷ xs) tail k w v a b g o =
    let (e, c, d, (m, h, p, q, r)) = v in
    let (u, at, s) = IsLinked-append ns n.cell m.next x xs tail k w r a.1 b g o in
    let t = tail-last ns n.cell m.next x xs tail r in
    let apart : n.cell ≢ (last x xs).cell = last-All (λ y. n.cell ≢ y.cell) x xs d in
    (
      u,
      at,
      (
        e,
        c,
        All-append _ (x ∷ xs) (k ∷ []) d ((λ z. a.0 (sym z)), tt),
        (m, linked_other ns tail k.cell n.cell u w m (λ z. apart (sym z ∙ t)) a.0 h, p, q, s),
      ),
    )
