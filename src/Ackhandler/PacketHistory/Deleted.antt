-- ===== src/Ackhandler/PacketHistory/Deleted.antt =====
-- `DeleteBelow` of the history: what stays of the intervals.
use gt_bbr.Prelude.{ℕ, ◌+◌, ◌≤◌, ◌<◌, ◌≡◌, ◌↔◌, Bool, true, false, List, [], ◌∷◌, arith}
use gt_bbr.Ackhandler.PacketHistory.{PacketInterval, delete_loop, delete_turn}
use gt_bbr.Ackhandler.PacketHistory.Order.{Below, IsOrdered, Has, Below-weaken}

-- What holds after the turns on the intervals `rs`, which lie below `s`.
pub record Deleted (s p : ℕ) (rs : List PacketInterval) (out : List PacketInterval × Bool)
    : Type 0 where
  pub below : Below s out.0
  pub ordered : IsOrdered out.0
  -- If the loop has stopped, every higher interval starts above `p`.
  pub stopped : out.1 ≡ false → p < s
  pub has : (q : ℕ) → Has q out.0 ↔ (Has q rs × (p ≤ q))

delete_turn-Has :
    (s p q : ℕ) (r : PacketInterval) (rs lower : List PacketInterval) (running : Bool)
    → r.start ≤ r.end
    → (running ≡ false → p < r.start)
    → Has q lower ↔ (Has q rs × (p ≤ q))
    → Has q (delete_turn p r (lower, running)).0 ↔ (Has q (r ∷ rs) × (p ≤ q))
unfolding delete_turn
delete_turn-Has s p q r rs lower true o st (to, from) = ground arith
delete_turn-Has s p q r rs lower false o st (to, from) = ground arith

delete_turn_lem :
    (s p : ℕ) (r : PacketInterval) (rs lower : List PacketInterval) (running : Bool)
    → r.end + 1 < s
    → r.start ≤ r.end
    → Deleted r.start p rs (lower, running)
    → Deleted s p (r ∷ rs) (delete_turn p r (lower, running))
delete_turn_lem s p r rs lower running b o d = record {
  below = unfold delete_turn in ground (arith, Below-weaken r.start s lower d.below (omega arith));
  ordered =
      unfold delete_turn in
      ground (arith, d.ordered, d.below, Below-weaken r.start p lower d.below);
  stopped = unfold delete_turn in ground (arith, d.stopped);
  has = λ q. delete_turn-Has s p q r rs lower running o d.stopped (d.has q);
}

pub delete_loop_lem :
    (s p : ℕ) (rs : List PacketInterval)
    → Below s rs
    → IsOrdered rs
    → Deleted s p rs (delete_loop p rs)
unfolding delete_loop
delete_loop_lem s p [] b o = record {
  below = tt;
  ordered = tt;
  stopped = λ e. ground arith;
  has = λ q. ground arith;
}
delete_loop_lem s p (r ∷ rs) b o =
    let d = delete_loop_lem r.start p rs o.1 o.2 in delete_turn_lem s p r rs _ _ b o.0 d

-- A bound above a whole list.
above_all : (rs : List PacketInterval) → (s : ℕ) × Below s rs
above_all [] = (0, tt)
above_all (r ∷ rs) = (r.end + 2, omega arith)

-- `DeleteBelow` keeps the order, and exactly the packet numbers from `p` on.
pub delete_loop-IsOrdered :
    (p : ℕ) (rs : List PacketInterval) → IsOrdered rs → IsOrdered (delete_loop p rs).0
delete_loop-IsOrdered p rs o = let (s, b) = above_all rs in (delete_loop_lem s p rs b o).ordered

pub delete_loop-Has :
    (p q : ℕ) (rs : List PacketInterval)
    → IsOrdered rs
    → Has q (delete_loop p rs).0 ↔ (Has q rs × (p ≤ q))
delete_loop-Has p q rs o = let (s, b) = above_all rs in (delete_loop_lem s p rs b o).has q
