-- ===== src/Prices/Order.antt =====
-- The order of price entries (`PriceEntry` of types.py), and `max` as its join.
use distributed_mobile_robot.Base.{◌≤ℤ◌, eq_of_parts, ◌≡◌, true, arith}
use distributed_mobile_robot.Types.{PriceEntry, entry_lt, entry_max}

-- Lexicographic: by price, then by bidder.
abbrev pub EntryLe : PriceEntry → PriceEntry → Type 0
EntryLe e f = (e.price ≤ℤ f.price) × (f.price ≤ℤ e.price → e.bidder ≤ℤ f.bidder)

pub entry_ext : (e f : PriceEntry) → e.price ≡ f.price → e.bidder ≡ f.bidder → e ≡ f
entry_ext e f p q = λ i. record { price = p i; bidder = q i }

pub EntryLe-refl : (e : PriceEntry) → EntryLe e e
EntryLe-refl e = omega arith

pub EntryLe-trans : (e f g : PriceEntry) → EntryLe e f → EntryLe f g → EntryLe e g
EntryLe-trans e f g p q = omega arith

pub EntryLe-antisymm : (e f : PriceEntry) → EntryLe e f → EntryLe f e → e ≡ f
EntryLe-antisymm e f p q =
    entry_ext e f (eq_of_parts e.price f.price (omega arith))
      (eq_of_parts e.bidder f.bidder (omega arith))

pub le-entry_max_left : (e f : PriceEntry) → EntryLe e (entry_max e f)
le-entry_max_left e f = ground arith

pub le-entry_max_right : (e f : PriceEntry) → EntryLe f (entry_max e f)
le-entry_max_right e f = ground arith

pub entry_max-le : (e f g : PriceEntry) → EntryLe e g → EntryLe f g → EntryLe (entry_max e f) g
entry_max-le e f g p q = ground arith

pub entry_max_comm : (e f : PriceEntry) → entry_max e f ≡ entry_max f e
entry_max_comm e f =
    EntryLe-antisymm _ _ (entry_max-le e f _ (le-entry_max_right f e) (le-entry_max_left f e))
      (entry_max-le f e _ (le-entry_max_right e f) (le-entry_max_left e f))

pub entry_max_assoc :
    (e f g : PriceEntry) → entry_max (entry_max e f) g ≡ entry_max e (entry_max f g)
entry_max_assoc e f g =
    EntryLe-antisymm _ _
      (entry_max-le (entry_max e f) g _
        (entry_max-le e f _ (le-entry_max_left e fg)
          (EntryLe-trans f fg _ (le-entry_max_left f g) (le-entry_max_right e fg)))
        (EntryLe-trans g fg _ (le-entry_max_right f g) (le-entry_max_right e fg)))
      (entry_max-le e fg _ (EntryLe-trans e ef _ (le-entry_max_left e f) (le-entry_max_left ef g)) (
        entry_max-le f g _ (EntryLe-trans f ef _ (le-entry_max_right e f) (le-entry_max_left ef g))
          (le-entry_max_right ef g)))
  where
    ef : PriceEntry
    ef = entry_max e f

    fg : PriceEntry
    fg = entry_max f g

pub entry_max_idem : (e : PriceEntry) → entry_max e e ≡ e
entry_max_idem e = ground arith

pub entry_lt-le_trans :
    (e f g : PriceEntry) → entry_lt e f ≡ true → EntryLe f g → entry_lt e g ≡ true
entry_lt-le_trans e f g h l = ground arith

pub le-entry_lt_trans :
    (e f g : PriceEntry) → EntryLe e f → entry_lt f g ≡ true → entry_lt e g ≡ true
le-entry_lt_trans e f g l h = ground arith
