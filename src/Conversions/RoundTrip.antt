-- ===== src/Conversions/RoundTrip.antt =====
-- What a message is after the way to the wire and back.
use distributed_mobile_robot.Base.{
  ℕ, Bool, true, ok, All, ℤ, ◌≡◌, ◌≢◌, refl, ◌∙◌, ap, inl, inr, List, [], ◌∷◌, ◌++◌, In-append_one,
  contains, false, In, Apart, ◌==ℤ◌, ℤ-cases,
}
use distributed_mobile_robot.Base.Dict.{Dict, set, AllItems, IsDistinct}
use distributed_mobile_robot.Types.{PriceEntry, Task, TaskId}
use distributed_mobile_robot.Messages.{RoundGossip}
use distributed_mobile_robot.Msgs.{
  RoundGossipMsg, PriceEntryMsg, TaskSpec, Bounded, Int64, in_range, int_from, int_of, int64s,
  plain,
}
use distributed_mobile_robot.Conversions.{
  entries_to_core, entries_to_msg, gossip_to_core, gossip_to_msg, members, task_to_core,
  task_to_msg,
}
use mathlib.Core.List.{append_assoc, append-nil}

-- The integer fits an int64 field, or an int32 field.
abbrev pub Fits64 : ℤ → Type 0
Fits64 x = in_range 9223372036854775808 x ≡ true

abbrev pub Fits32 : ℤ → Type 0
Fits32 x = in_range 2147483648 x ≡ true

pub int_of-fits :
    (half : ℕ) (x : ℤ)
    → in_range half x ≡ true
    → (y : Bounded half) × (int_of half x ≡ ok y) × (y.value ≡ x)
int_of-fits half x fits = from (in_range half x) refl fits
  where
    from :
        (b : Bool) (is : in_range half x ≡ b)
        → b ≡ true
        → (y : Bounded half) × (int_from half x b is ≡ ok y) × (y.value ≡ x)
    from true is same = (record { value = x; fits = is }, refl, refl)
    from false is same = absurd (cc)

pub int64s-fits :
    (xs : List ℤ) → All Fits64 xs → (ys : List Int64) × (int64s xs ≡ ok ys) × (plain ys ≡ xs)
unfolding int64s
int64s-fits [] h = ([], refl, refl)
int64s-fits (x ∷ xs) h =
    let (y, set_y, same_y) = int_of-fits 9223372036854775808 x h.0 in
    let (ys, set_ys, same_ys) = int64s-fits xs h.1 in
    (y ∷ ys, rw set_y (rw set_ys refl), λ i. same_y i ∷ same_ys i)

-- Setting a new key adds it at the end.
set-new :
    (k : TaskId) (e : PriceEntry) (d : Dict PriceEntry)
    → AllItems (λ j _. (j ==ℤ k) ≡ false) d
    → set k e d ≡ d ++ (k, e) ∷ []
unfolding set
set-new k e [] h = refl
set-new k e ((j, f) ∷ d) h = rw h.0 (ap (λ (r : Dict PriceEntry). (j, f) ∷ r) (set-new k e d h.1))

AllItems-append :
    (Q : TaskId → Type 0) (d : Dict PriceEntry) (k : TaskId) (e : PriceEntry)
    → AllItems (λ j _. Q j) d
    → Q k
    → AllItems (λ j _. Q j) (d ++ (k, e) ∷ [])
AllItems-append Q [] k e h q = (q, tt)
AllItems-append Q ((j, f) ∷ d) k e h q = (h.0, AllItems-append Q d k e h.1 q)

-- Each key of the second dict is new in the first.
AllNew : Dict PriceEntry → Dict PriceEntry → Type 0
AllNew d [] = Unit
AllNew d ((k, e) ∷ r) = AllItems (λ j _. (j ==ℤ k) ≡ false) d × AllNew d r

AllNew-append :
    (d r : Dict PriceEntry) (k : TaskId) (e : PriceEntry)
    → AllNew d r
    → AllItems (λ j _. (k ==ℤ j) ≡ false) r
    → AllNew (d ++ (k, e) ∷ []) r
unfolding AllNew
AllNew-append d [] k e h q = tt
AllNew-append d ((j, f) ∷ r) k e h q =
    (AllItems-append (λ i. (i ==ℤ j) ≡ false) d k e h.0 q.0, AllNew-append d r k e h.1 q.1)

entries_round_trip_from :
    (r d : Dict PriceEntry)
    → IsDistinct r
    → AllNew d r
    → AllItems (λ k e. Fits64 k × Fits64 e.bidder) r
    → (es : List PriceEntryMsg) × (entries_to_msg r ≡ ok es) × (entries_to_core es d ≡ d ++ r)
unfolding entries_to_core entries_to_msg AllNew
entries_round_trip_from [] d distinct new fits = ([], refl, rw (append-nil d) refl)
entries_round_trip_from ((k, e) ∷ r) d distinct new fits =
    let (task_id, set_task, same_task) = int_of-fits 9223372036854775808 k fits.0.0 in
    let (bidder, set_bidder, same_bidder) = int_of-fits 9223372036854775808 e.bidder fits.0.1 in
    let (es, sent, same) =
      entries_round_trip_from r (d ++ (k, e) ∷ []) distinct.1
        (AllNew-append d r k e new.1 distinct.0) fits.1 in
    let first : set task_id.value (record { price = e.price; bidder = bidder.value }) d
        ≡ d ++ (k, e) ∷ [] =
      (λ i. set (same_task i) (record { price = e.price; bidder = same_bidder i }) d)
      ∙ set-new k e d new.0 in
    (
      record { task_id = task_id; price = e.price; bidder = bidder } ∷ es,
      rw set_task (rw set_bidder (rw sent refl)),
      ap (λ (x : Dict PriceEntry). entries_to_core es x) first
          ∙ (same ∙ append_assoc d ((k, e) ∷ []) r),
    )

AllNew-nil : (r : Dict PriceEntry) → AllNew [] r
unfolding AllNew
AllNew-nil [] = tt
AllNew-nil ((k, e) ∷ r) = (tt, AllNew-nil r)

-- The fields of a gossip are in range.
pub record FitsGossip (g : RoundGossip) : Type 0 where
  pub distinct : IsDistinct g.inner.entries
  pub round_id : Fits64 g.round_id
  pub sender : Fits64 g.inner.sender
  pub entries : AllItems (λ k e. Fits64 k × Fits64 e.bidder) g.inner.entries

pub gossip_round_trip :
    (g : RoundGossip)
    → FitsGossip g
    → (msg : RoundGossipMsg) × (gossip_to_msg g ≡ ok msg) × (gossip_to_core msg ≡ g)
unfolding gossip_to_core gossip_to_msg
gossip_round_trip g h =
    let (round_id, set_round, same_round) = int_of-fits 9223372036854775808 g.round_id h.round_id in
    let (sender, set_sender, same_sender) =
      int_of-fits 9223372036854775808 g.inner.sender h.sender in
    let (es, sent, same) =
      entries_round_trip_from g.inner.entries [] h.distinct (AllNew-nil g.inner.entries)
        h.entries in
    (
      record { round_id = round_id; table = record { sender = sender; entries = es } },
      rw set_round (rw set_sender (rw sent refl)),
      λ i. record {
        round_id = same_round i;
        inner = record { sender = same_sender i; entries = same i };
      },
    )

-- Membership in what `members` returns.
contains-not_In : (k : ℤ) (xs : List ℤ) → ((j : ℤ) → In j xs → j ≢ k) → contains k xs ≡ false
contains-not_In k [] h = refl
contains-not_In k (x ∷ xs) h = elim (ℤ-cases x k) [
  | inl same ↦ absurd (h x (inl refl) same)
  | inr other ↦ rw other (contains-not_In k xs λ j i. h j (inr i))
]

members-Apart :
    (seen xs : List ℤ)
    → Apart xs
    → ((j k : ℤ) → In j seen → In k xs → j ≢ k)
    → members seen xs ≡ seen ++ xs
unfolding members
members-Apart seen [] apart new = rw (append-nil seen)
members-Apart seen (x ∷ xs) apart new = rw (contains-not_In x seen λ j i. new j x i (inl refl)) (
    members-Apart (seen ++ x ∷ []) xs apart.1 (λ j k i i'. elim (In-append_one j seen x i) [
      | inl old ↦ new j k old (inr i')
      | inr last ↦ λ same. apart.0 k i' (last ∙ same)
    ])
    ∙ append_assoc seen (x ∷ []) xs)

-- A task whose prerequisites are different, and whose ids and number of robots fit the int64 and
-- int32 fields, is converted to a message without an exception, and the message back to the same
-- task.
pub task_round_trip :
    (t : Task)
    → Apart t.prerequisites
    → Fits64 t.id
    → All Fits64 t.prerequisites
    → Fits32 t.required_robots
    → (msg : TaskSpec) × (task_to_msg t ≡ ok msg) × (task_to_core msg ≡ t)
unfolding task_to_core task_to_msg
task_round_trip t apart fits fit_prerequisites fit_robots =
    let (id, set_id, same_id) = int_of-fits 9223372036854775808 t.id fits in
    let (prerequisites, set_prerequisites, same_prerequisites) =
      int64s-fits t.prerequisites fit_prerequisites in
    let (robots, set_robots, same_robots) = int_of-fits 2147483648 t.required_robots fit_robots in
    let same : members [] (plain prerequisites) ≡ t.prerequisites =
      ap (λ xs. members [] xs) same_prerequisites
      ∙ members-Apart [] t.prerequisites apart (λ j k i. absurd i) in
    (
      record {
        id = id;
        position = t.position;
        duration = t.duration;
        capabilities = t.capabilities;
        prerequisites = prerequisites;
        required_robots = robots;
      },
      rw set_id (rw set_prerequisites (rw set_robots refl)),
      λ i. record {
        id = same_id i;
        position = t.position;
        duration = t.duration;
        capabilities = t.capabilities;
        prerequisites = same i;
        required_robots = same_robots i;
      },
    )
