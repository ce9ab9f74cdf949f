-- ===== src/Perf/Monitor/Rounds/Conserved.antt =====
-- Of the samples that `readRingBuffers` of pkg/sys/perf/monitor.go reads, none is lost and none is sent
-- twice; and which of them wait for the next round.
use mathlib.Core.List.{Perm, append_assoc, append-nil, perm_append_comm}
use mathlib.Core.List.Perm
use mathlib.Core.Path.{subst}
use capsule.Prelude.{
  ℕ, ◌-◌, List, [], ◌∷◌, ◌++◌, map, length, length-append, take, drop, take-append-drop, ◌≡◌, refl,
  sym, ap, ◌∙◌, arith,
}
use capsule.Perf.Monitor.Rounds.{
  DecodedSample, GroupRead, normalize, Round, count_late, cut, add_read, read_groups, send,
  read_ring_buffers, flush_pending_samples,
}

-- What the groups hand over, with the times made consistent.
unfoldable pub all_read : List GroupRead → List DecodedSample
unfolding normalize
all_read [] = []
all_read (group ∷ groups) = map (normalize group) group.read ++ all_read groups

cut-Perm :
    (x : ℕ) (samples : List DecodedSample) (round : Round)
    → Perm
        ((cut x samples round).samples ++ (cut x samples round).pending_samples)
        (samples ++ round.pending_samples)
unfolding cut
cut-Perm x samples round =
    let p : List DecodedSample = round.pending_samples in
    Perm.trans (Perm.append_left (take x samples) (perm_append_comm p (drop x samples))) (
      subst (λ l. Perm (take x samples ++ (drop x samples ++ p)) l)
        (sym (append_assoc (take x samples) (drop x samples) p)
          ∙ ap (λ l. l ++ p) (take-append-drop x samples))
        Perm.rfl)

add_read-Perm :
    (old new : List DecodedSample) (round : Round)
    → Perm
        ((add_read old new round).samples ++ (add_read old new round).pending_samples)
        ((old ++ new) ++ round.pending_samples)
unfolding add_read
add_read-Perm [] new round = Perm.rfl
add_read-Perm (s ∷ old) new round = cut-Perm _ ((s ∷ old) ++ new) round

moved : (a b c d : List DecodedSample) → Perm (((a ++ b) ++ c) ++ d) ((a ++ c) ++ (b ++ d))
moved a b c d =
    let e : ((a ++ b) ++ c) ++ d ≡ a ++ ((b ++ c) ++ d) = simp append_assoc in
    let f : (a ++ c) ++ (b ++ d) ≡ a ++ ((c ++ b) ++ d) = simp append_assoc in
    rw (e, f) (Perm.append_left a (Perm.append_right d (perm_append_comm b c)))

read_groups-Perm :
    (groups : List GroupRead) (round : Round)
    → Perm
        ((read_groups groups round).samples ++ (read_groups groups round).pending_samples)
        ((round.samples ++ round.pending_samples) ++ all_read groups)
unfolding read_groups all_read
read_groups-Perm [] round =
    subst (λ l. Perm (round.samples ++ round.pending_samples) l)
      (sym (append-nil (round.samples ++ round.pending_samples))) Perm.rfl
read_groups-Perm (group ∷ groups) round =
    let new : List DecodedSample = map (normalize group) group.read in
    let round' : Round = add_read round.samples new round in
    Perm.trans (read_groups-Perm groups round') (
      Perm.trans (Perm.append_right (all_read groups) (add_read-Perm round.samples new round))
        (moved round.samples new round.pending_samples (all_read groups)))

-- A round of the monitor, or what its timeout does.
pub data Turn : Type 0 where
  read_turn : List GroupRead → Turn
  flush_turn : Turn

-- What one turn sends, and what it leaves pending.
unfoldable pub turn : Turn → List DecodedSample → List DecodedSample × List DecodedSample
unfolding read_ring_buffers flush_pending_samples
turn (Turn.read_turn groups) pending = read_ring_buffers groups pending
turn Turn.flush_turn pending = flush_pending_samples pending

-- All that a sequence of turns sends, and what it leaves pending.
unfoldable pub turns : List Turn → List DecodedSample → List DecodedSample × List DecodedSample
unfolding turn
turns [] pending = ([], pending)
turns (t ∷ ts) pending =
    let (sent, rest) = turn t pending in let (later, left) = turns ts rest in (sent ++ later, left)

unfoldable pub read_of : List Turn → List DecodedSample
unfolding all_read
read_of [] = []
read_of (Turn.read_turn groups ∷ ts) = all_read groups ++ read_of ts
read_of (Turn.flush_turn ∷ ts) = read_of ts

send-Perm :
    (samples pending : List DecodedSample)
    → Perm ((send samples pending).0 ++ (send samples pending).1) (samples ++ pending)
unfolding send
send-Perm [] pending = Perm.rfl
send-Perm (s ∷ samples) pending =
    subst (λ l. Perm l ((s ∷ samples) ++ pending)) (sym (append-nil ((s ∷ samples) ++ pending)))
      Perm.rfl

turn-Perm :
    (t : Turn) (pending : List DecodedSample)
    → Perm ((turn t pending).0 ++ (turn t pending).1) (pending ++ read_of (t ∷ []))
unfolding turn read_ring_buffers flush_pending_samples read_of
turn-Perm (Turn.read_turn groups) pending =
    let round : Round =
      read_groups groups
        (record { samples = []; pending_samples = pending; last_timestamp = 0; last_index = 0 }) in
    rw (append-nil (all_read groups)) (
      Perm.trans (send-Perm round.samples round.pending_samples) (
        read_groups-Perm groups
          (record { samples = []; pending_samples = pending; last_timestamp = 0; last_index = 0 })))
turn-Perm Turn.flush_turn pending = Perm.rfl

read_of-cons : (t : Turn) (ts : List Turn) → read_of (t ∷ []) ++ read_of ts ≡ read_of (t ∷ ts)
unfolding read_of
read_of-cons (Turn.read_turn groups) ts = ap (λ l. l ++ read_of ts) (append-nil (all_read groups))
read_of-cons Turn.flush_turn ts = refl

-- Over every sequence of rounds and timeouts, what was sent to the dispatcher and what is pending are
-- together exactly the samples that were pending at the start and those that were read, each as often.
pub turns-Perm :
    (ts : List Turn) (pending : List DecodedSample)
    → Perm ((turns ts pending).0 ++ (turns ts pending).1) (pending ++ read_of ts)
unfolding turns read_of
turns-Perm [] pending = subst (λ l. Perm pending l) (sym (append-nil pending)) Perm.rfl
turns-Perm (t ∷ ts) pending =
    let (sent, rest) = turn t pending in
    let (later, left) = turns ts rest in
    let e : (sent ++ later) ++ left ≡ sent ++ (later ++ left) = append_assoc sent later left in
    let f : (pending ++ read_of (t ∷ [])) ++ read_of ts ≡ pending ++ read_of (t ∷ ts) =
      append_assoc pending (read_of (t ∷ [])) (read_of ts)
      ∙ ap (λ l. pending ++ l) (read_of-cons t ts) in
    subst (λ l. Perm l (pending ++ read_of (t ∷ ts))) (sym e)
      (subst (λ l. Perm (sent ++ (later ++ left)) l) f
        (Perm.trans (Perm.append_left sent (turns-Perm ts rest)) (
          subst (λ l. Perm l ((pending ++ read_of (t ∷ [])) ++ read_of ts))
            (append_assoc sent rest (read_of ts))
            (Perm.append_right (read_of ts) (turn-Perm t pending)))))

drop_whole : (l : List DecodedSample) → drop (length l) l ≡ []
drop_whole [] = refl
drop_whole (s ∷ l) = drop_whole l

take_whole : (l : List DecodedSample) → take (length l) l ≡ l
take_whole [] = refl
take_whole (s ∷ l) = ap (λ k. s ∷ k) (take_whole l)

none_late : (t : ℕ) → count_late t [] ≡ 0
unfolding count_late
none_late t = refl

-- A sample that is the only one read from a later buffer is sent with this round whatever its time:
-- the loop that looks for late samples starts behind it.
pub add_read_single :
    (s n : DecodedSample) (old : List DecodedSample) (round : Round)
    → round.last_index ≡ length (s ∷ old)
    → ((add_read (s ∷ old) (n ∷ []) round).samples ≡ s ∷ (old ++ (n ∷ [])))
      × ((add_read (s ∷ old) (n ∷ []) round).pending_samples ≡ round.pending_samples)
unfolding add_read cut
add_read_single s n old round h =
    let l : List DecodedSample = old ++ (n ∷ []) in
    let t : ℕ = round.last_timestamp in
    let k : round.last_index ≡ length l = omega (arith, h, length-append old (n ∷ [])) in
    let c : count_late t (drop round.last_index l) ≡ 0 =
      ap (count_late t) (ap (λ i. drop i l) k ∙ drop_whole l) ∙ none_late t in
    let x : length (s ∷ l) - count_late t (drop round.last_index l) ≡ length (s ∷ l) =
      omega (arith, c) in
    (
      ap (λ i. take i (s ∷ l)) x ∙ take_whole (s ∷ l),
      ap (λ i. round.pending_samples ++ drop i (s ∷ l)) x
          ∙ ap (λ d. round.pending_samples ++ d) (drop_whole (s ∷ l))
          ∙ append-nil round.pending_samples,
    )
