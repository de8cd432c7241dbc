-- ===== src/BTree/Splice.antt =====
-- The split of a child: the two halves and the item between them stand where the child stood.
use mathlib.Core.List.{append_assoc}
use gocore.Common.{
  ℕ, zero, suc, ◌+◌, ◌≤◌, ◌<◌, ◌≡◌, refl, sym, ap, ◌∙◌, false, not, List, [], ◌∷◌, ◌++◌, some,
  arith, if◌then◌else◌, length, set, take, drop, get_elem?, All, from_some,
}
use gocore.Common.Run.{ok}
use gocore.BTree.Items.{Item, less, insert_at}
use gocore.BTree.Node.{Node}
use gocore.BTree.Find.{scan}
use gocore.BTree.Weave.{flat, weave}

-- What `insert_at` returns within bounds.
abbrev pub splice {ℓ} : {A : Type ℓ} → List A → ℕ → A → List A
splice s zero v = v ∷ s
splice [] (suc i) v = v ∷ []
splice (x ∷ s) (suc i) v = x ∷ splice s i v

module _ {A : Type 0} where
  pub insert_at-splice :
      (s : List A) (i : ℕ) (v : A) → i ≤ length s → insert_at s i v ≡ ok (splice s i v)
  unfolding insert_at
  insert_at-splice s zero v h = refl
  insert_at-splice [] (suc i) v h = elim h [ ]
  insert_at-splice (x ∷ s) (suc i) v h = rw (insert_at-splice s i v (omega arith))

  pub length-splice : (s : List A) (i : ℕ) (v : A) → length (splice s i v) ≡ suc (length s)
  length-splice s zero v = refl
  length-splice [] (suc i) v = refl
  length-splice (x ∷ s) (suc i) v = ap suc (length-splice s i v)

  pub get_elem?-splice_self :
      (s : List A) (i : ℕ) (v : A) → i ≤ length s → get_elem? (splice s i v) i ≡ some v
  get_elem?-splice_self s zero v h = refl
  get_elem?-splice_self [] (suc i) v h = elim h [ ]
  get_elem?-splice_self (x ∷ s) (suc i) v h = get_elem?-splice_self s i v (omega arith)

  pub get_elem?-splice_before :
      (s : List A) (i : ℕ) (v : A) → i < length s → get_elem? (splice s (suc i) v) i ≡ get_elem? s i
  get_elem?-splice_before [] i v h = elim h [ ]
  get_elem?-splice_before (x ∷ s) zero v h = refl
  get_elem?-splice_before (x ∷ s) (suc i) v h = get_elem?-splice_before s i v (omega arith)

pub All-splice :
    {A : Type 0} (P : A → Type 0) (s : List A) (i : ℕ) (v : A)
    → All P s
    → P v
    → All P (splice s i v)
All-splice P s zero v h p = (p, h)
All-splice P [] (suc i) v h p = (p, tt)
All-splice P (x ∷ s) (suc i) v h p = (h.0, All-splice P s i v h.1 p)

pub scan_le : (is : List Item) (x : Item) → (scan is x).0 ≤ length is
scan_le [] x = omega arith
scan_le (y ∷ is) x = ground (arith, scan_le is x)

-- Where a new item stands at the slot that `scan` found, the next `scan` ends there or one slot on.
pub scan-splice :
    (is : List Item) (x it : Item)
    → (scan is x).1 ≡ false
    → scan (splice is (scan is x).0 it) x
      ≡ (if less it x then ((scan is x).0 + 1, false) else ((scan is x).0, not (less x it)))
scan-splice [] x it f = ground arith
scan-splice (y ∷ is) x it f = ground (arith, scan-splice is x it)

pub weave-splice :
    (is : List Item) (cs : List Node) (i : ℕ) (it : Item) {c : Node} (first second : Node)
    → i ≤ length is
    → length cs ≡ suc (length is)
    → get_elem? cs i ≡ some c
    → flat c ≡ flat first ++ it ∷ flat second
    → weave (splice is i it) (splice (set cs i first) (suc i) second) ≡ weave is cs
weave-splice is [] i it first second h l e p = cc
weave-splice [] (c ∷ []) zero it first second h l e p = rw (ap (from_some c) e) (sym p)
weave-splice [] (c ∷ b ∷ cs) zero it first second h l e p = absurd (omega arith)
weave-splice [] (c ∷ cs) (suc i) it first second h l e p = absurd (omega arith)
weave-splice (y ∷ is) (c ∷ cs) zero it first second h l e p =
    rw (ap (from_some c) e)
      (rw p (sym (append_assoc (flat first) (it ∷ flat second) (y ∷ weave is cs))))
weave-splice (y ∷ is) (c ∷ cs) (suc i) it first second h l e p =
    ap (λ r. flat c ++ y ∷ r) (weave-splice is cs i it first second (omega arith) (omega arith) e p)

-- A node cut at one of its items.
pub weave_cut :
    (is : List Item) (cs : List Node) (i : ℕ) {it : Item}
    → get_elem? is i ≡ some it
    → length cs ≡ suc (length is)
    → weave is cs
      ≡ weave (take i is) (take (suc i) cs) ++ it ∷ weave (drop (suc i) is) (drop (suc i) cs)
weave_cut [] cs i e l = cc
weave_cut (y ∷ is) [] i e l = cc
weave_cut (y ∷ is) (c ∷ cs) zero e l = ap (λ r. flat c ++ r ∷ weave is cs) (ap (from_some y) e)
weave_cut (y ∷ is) (c ∷ cs) (suc i) {it} e l =
    ap (λ r. flat c ++ y ∷ r) (weave_cut is cs i e (omega arith))
    ∙ sym (
        append_assoc (flat c) (y ∷ weave (take i is) (take (suc i) cs))
          (it ∷ weave (drop (suc i) is) (drop (suc i) cs)))

pub list_cut :
    (is : List Item) (i : ℕ) {it : Item}
    → get_elem? is i ≡ some it
    → is ≡ take i is ++ it ∷ drop (suc i) is
list_cut [] i e = cc
list_cut (y ∷ is) zero e = ap (λ r. r ∷ is) (ap (from_some y) e)
list_cut (y ∷ is) (suc i) e = ap (◌∷◌ y) (list_cut is i e)
