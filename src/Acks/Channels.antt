-- ===== src/Acks/Channels.antt =====
-- Channels in the table of pending acks: open, distinct and already made.
use go_pkg.Common.{
  ℕ, suc, ◌<◌, ◌≡◌, refl, true, false, some, List, [], ◌∷◌, ◌==◌, Bytes, All, arith,
}
use go_pkg.Common.Table.{Table, get, put, del, values}
use go_pkg.Acks.{member}

-- Channels that are open and pairwise distinct.
abbrev pub AreOpen : List ℕ → List ℕ → Type 0
AreOpen closed [] = Unit
AreOpen closed (c ∷ cs) = (member c closed ≡ false) × (member c cs ≡ false) × AreOpen closed cs

pub above-not_member : (n : ℕ) (cs : List ℕ) → All (λ c. c < n) cs → member n cs ≡ false
unfolding member
above-not_member n [] h = refl
above-not_member n (c ∷ cs) h = ground (arith, above-not_member n cs h.1)

pub Below-suc : (n : ℕ) (cs : List ℕ) → All (λ c. c < n) cs → All (λ c. c < suc n) cs
Below-suc n [] h = tt
Below-suc n (c ∷ cs) h = (omega arith, Below-suc n cs h.1)

pub Below-put :
    (k : Bytes) (n c : ℕ) (t : Table ℕ)
    → c < n
    → All (λ x. x < n) (values t)
    → All (λ x. x < n) (values (put k c t))
unfolding put
Below-put k n c [] h b = (h, tt)
Below-put k n c ((j, w) ∷ t) h b = ground (arith, Below-put k n c t h b.1)

pub Below-del :
    (k : Bytes) (n : ℕ) (t : Table ℕ)
    → All (λ x. x < n) (values t)
    → All (λ x. x < n) (values (del k t))
unfolding del
Below-del k n [] b = tt
Below-del k n ((j, w) ∷ t) b = ground (arith, Below-del k n t b.1)

pub not_member-put :
    (k : Bytes) (c d : ℕ) (t : Table ℕ)
    → (c == d) ≡ false
    → member d (values t) ≡ false
    → member d (values (put k c t)) ≡ false
unfolding put member
not_member-put k c d [] h b = ground arith
not_member-put k c d ((j, w) ∷ t) h b = ground (arith, not_member-put k c d t)

pub not_member-del :
    (k : Bytes) (d : ℕ) (t : Table ℕ)
    → member d (values t) ≡ false
    → member d (values (del k t)) ≡ false
unfolding del member
not_member-del k d [] b = refl
not_member-del k d ((j, w) ∷ t) b = ground (arith, not_member-del k d t)

pub AreOpen-put :
    (k : Bytes) (c : ℕ) (closed : List ℕ) (t : Table ℕ)
    → member c closed ≡ false
    → member c (values t) ≡ false
    → AreOpen closed (values t)
    → AreOpen closed (values (put k c t))
unfolding put member
AreOpen-put k c closed [] h n o = (h, refl, tt)
AreOpen-put k c closed ((j, w) ∷ t) h n o =
    ground (arith, AreOpen-put k c closed t h, not_member-put k c w t)

pub AreOpen-del :
    (k : Bytes) (closed : List ℕ) (t : Table ℕ)
    → AreOpen closed (values t)
    → AreOpen closed (values (del k t))
unfolding del
AreOpen-del k closed [] o = tt
AreOpen-del k closed ((j, w) ∷ t) o =
    ground (arith, AreOpen-del k closed t o.2, not_member-del k w t o.1)

pub member-get : (k : Bytes) (c : ℕ) (t : Table ℕ) → get k t ≡ some c → member c (values t) ≡ true
unfolding get member
member-get k c [] h = cc
member-get k c ((j, w) ∷ t) h = ground (arith, member-get k c t)

-- Once a key is gone its channel is gone.
pub not_member-del-get :
    (k : Bytes) (c : ℕ) (closed : List ℕ) (t : Table ℕ)
    → AreOpen closed (values t)
    → get k t ≡ some c
    → member c (values (del k t)) ≡ false
unfolding del get member
not_member-del-get k c closed [] o h = cc
not_member-del-get k c closed ((j, w) ∷ t) o h =
    ground (arith, not_member-del-get k c closed t o.2, not_member-del k w t o.1, member-get k c t)

pub open_get :
    (k : Bytes) (c : ℕ) (closed : List ℕ) (t : Table ℕ)
    → AreOpen closed (values t)
    → get k t ≡ some c
    → member c closed ≡ false
unfolding get
open_get k c closed [] o h = cc
open_get k c closed ((j, w) ∷ t) o h = ground (arith, open_get k c closed t o.2)

pub AreOpen-close :
    (c : ℕ) (closed cs : List ℕ) → AreOpen closed cs → member c cs ≡ false → AreOpen (c ∷ closed) cs
unfolding member
AreOpen-close c closed [] o n = tt
AreOpen-close c closed (d ∷ cs) o n = ground (arith, AreOpen-close c closed cs o.2)
