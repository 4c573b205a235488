-- ===== src/Transport/Tests.antt =====
-- A topology.
use distributed_mobile_robot.Base.{
  ℤ, pos, [], ◌∷◌, ◌≡◌, refl, ok, sorted, false, not, select, arith,
}
use distributed_mobile_robot.Base.Dict.{get, set}
use distributed_mobile_robot.Transport.{
  SimTransport, line, link_pairs, add_neighbour, no_neighbours, deliver_due,
}
use distributed_mobile_robot.Transport.Order.{IsOrdered, deliveries, is_due, deliver_due_lem}

-- Three agents in a row.
three_line :
    line (pos 3 ∷ pos 1 ∷ pos 2 ∷ [])
    ≡ ok ((pos 1, pos 2 ∷ []) ∷ (pos 2, pos 1 ∷ pos 3 ∷ []) ∷ (pos 3, pos 2 ∷ []) ∷ [])
unfolding line link_pairs add_neighbour no_neighbours sorted get set
three_line = refl

abbrev waiting : SimTransport Unit ℤ
waiting = record {
  topology_fn = λ tick. (pos 1, pos 2 ∷ pos 3 ∷ []) ∷ [];
  lost = λ rng. (false, rng);
  delay = λ rng. (pos 1, rng);
  rng = tt;
  queue =
      record { deliver_at = 4; seq = 0; dest = pos 2; payload = pos 8 }
      ∷ record { deliver_at = 6; seq = 1; dest = pos 3; payload = pos 9 }
      ∷ [];
  seq = 2;
  messages_sent = 2;
}

waiting-IsOrdered : IsOrdered waiting.queue
waiting-IsOrdered = ((omega arith, tt), (tt, tt))

deliver_example :
    ((deliver_due 5 waiting).0 ≡ deliveries (select (is_due 5) waiting.queue))
    × ((deliver_due 5 waiting).1.queue ≡ select (λ x. not (is_due 5 x)) waiting.queue)
deliver_example = deliver_due_lem 5 waiting waiting-IsOrdered
