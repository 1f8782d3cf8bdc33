-- ===== src/Ackhandler/SentHistory/Order.antt =====
-- internal/ackhandler/sent_packet_history.go: the packets stay in ascending order.
use gt_bbr.Ackhandler.SentHistory.Outstanding.{Above, Below, IsAscending, forget}
use gt_bbr.Ackhandler.SentHistory.{change_packet, remove_packet, Packet}
use gt_bbr.Prelude.{ℕ, ◌+◌, ◌≤◌, ◌<◌, List, [], ◌∷◌, ◌++◌, arith}

pub change-Above : (m n : ℕ) (ps : List Packet) → Above m ps → Above m (change_packet forget n ps)
unfolding change_packet
change-Above m n [] a = a
change-Above m n (p ∷ ps) (lt, a) = ground (arith, change-Above m n ps a, lt, a)

pub change-Below : (m n : ℕ) (ps : List Packet) → Below m ps → Below m (change_packet forget n ps)
unfolding change_packet
change-Below m n [] a = a
change-Below m n (p ∷ ps) (lt, a) = ground (arith, change-Below m n ps a, lt, a)

pub change-IsAscending :
    (n : ℕ) (ps : List Packet) → IsAscending ps → IsAscending (change_packet forget n ps)
unfolding change_packet
change-IsAscending n [] a = a
change-IsAscending n (p ∷ ps) (b, a) =
    ground (arith, change-IsAscending n ps a, change-Above p.packet_number n ps b, a, b)

pub remove-Above : (m n : ℕ) (ps : List Packet) → Above m ps → Above m (remove_packet n ps)
unfolding remove_packet
remove-Above m n [] a = a
remove-Above m n (p ∷ ps) (lt, a) = ground (arith, remove-Above m n ps a, lt, a)

pub remove-Below : (m n : ℕ) (ps : List Packet) → Below m ps → Below m (remove_packet n ps)
unfolding remove_packet
remove-Below m n [] a = a
remove-Below m n (p ∷ ps) (lt, a) = ground (arith, remove-Below m n ps a, lt, a)

pub remove-IsAscending :
    (n : ℕ) (ps : List Packet) → IsAscending ps → IsAscending (remove_packet n ps)
unfolding remove_packet
remove-IsAscending n [] a = a
remove-IsAscending n (p ∷ ps) (b, a) =
    ground (arith, remove-IsAscending n ps a, remove-Above p.packet_number n ps b, a, b)

pub append-Above :
    (m : ℕ) (p : Packet) (ps : List Packet)
    → m < p.packet_number
    → Above m ps
    → Above m (ps ++ (p ∷ []))
append-Above m p [] h a = (h, tt)
append-Above m p (q ∷ ps) h (lt, a) = (lt, append-Above m p ps h a)

pub append-Below :
    (m : ℕ) (p : Packet) (ps : List Packet)
    → m ≤ p.packet_number
    → Below m ps
    → Below (p.packet_number + 1) (ps ++ (p ∷ []))
append-Below m p [] h a = (omega arith, tt)
append-Below m p (q ∷ ps) h (lt, a) = (omega (arith, h, lt), append-Below m p ps h a)

pub append-IsAscending :
    (m : ℕ) (p : Packet) (ps : List Packet)
    → m ≤ p.packet_number
    → Below m ps
    → IsAscending ps
    → IsAscending (ps ++ (p ∷ []))
append-IsAscending m p [] h b a = (tt, tt)
append-IsAscending m p (q ∷ ps) h (lt, b) (above, a) = (
  append-Above q.packet_number p ps (omega (arith, h, lt)) above,
  append-IsAscending m p ps h b a,
)
