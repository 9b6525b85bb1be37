-- ===== src/A2w22/Directory/Runs.antt =====
-- Assignment_2/w22/controller.cpp: whole runs of the controller, against the directory.
use cmput.Common.{
  ℕ, zero, suc, ◌+◌, ◌≤◌, ◌<◌, ◌≡◌, refl, ◌∙◌, ap, Bool, false, inl, inr, List, [], ◌∷◌, ◌++◌, map,
  Option, none, some, if◌then◌else◌, ◌==◌, ℤ, pos, length, All, arith, Bool-cases,
}
use cmput.Text.{Bytes, Lacks}
use cmput.Process.{running, ◌>>=◌, bytes}
use cmput.A2w22.{Arrival}
use cmput.A2w22.Frames.{receive_frame}
use cmput.A2w22.Messages.{ask_text-Lacks, hello_text-Lacks}
use cmput.A2w22.Controller.{Controller, controller_receive}
use cmput.A2w22.Controller.Loop.{Poll, initial, start, keyboard, serve, serve_fifos, round, rounds}
use cmput.Process.Sent.{sent}
use cmput.A2w22.Directory.{
  Request, announce, locate, request_text, Directory, nobody, Serves, ServesAll, no_more, one_more,
  frame_of,
}
use cmput.A2w22.Directory.Serving.{Agrees, IsRequest, serves_request}

-- One round of the loop: a request that arrives through the FIFO `slot`, what the buffer of the
-- controller held, and whether its writes succeed.
pub record Arriving : Type 0 where
  pub slot : ℕ
  pub request : Request
  pub garbage : Bytes
  pub writes : ℤ → Bytes → Bool

abbrev pub arrival_of : Arriving → Arrival
arrival_of a = record { reading = bytes (request_text a.request ++ 0 ∷ []); garbage = a.garbage }

abbrev pub ready_at : ℕ → Arrival → ℕ → Option Arrival
ready_at slot a i = if i == slot then some a else none

abbrev pub poll_of : Arriving → Poll
poll_of a = record { stdin = none; ready = ready_at a.slot (arrival_of a); writes = a.writes }

-- The FIFO is one of the controller's, the buffer has room, and the request is one of a switch that the
-- controller has a session for.
pub record IsSound (num : ℕ) (a : Arriving) : Type 0 where
  pub in_slots : a.slot < num
  pub fits : length (request_text a.request) < length a.garbage
  pub sound : IsRequest num a.request

request_text-Lacks : (r : Request) → Lacks 0 (request_text r)
request_text-Lacks (announce sid pswj pswk r) = hello_text-Lacks sid pswj pswk r
request_text-Lacks (locate switch_id dest_ip) = ask_text-Lacks switch_id dest_ip

module _ (writes : ℤ → Bytes → Bool) (slot : ℕ) (a : Arrival) where
  -- Behind the slot nothing more arrives.
  serve_fifos-behind :
      (n j : ℕ) (c : Controller) → slot < j → serve_fifos writes n j (ready_at slot a) c ≡ running c
  unfolding serve_fifos serve
  serve_fifos-behind zero j c h = refl
  serve_fifos-behind (suc n) j c h =
      let off : (j == slot) ≡ false = ground arith in
      rw off (serve_fifos-behind n (j + 1) c (omega arith))

  serve_fifos-slot :
      (n j : ℕ) (c d : Controller)
      → j ≤ slot
      → slot < j + n
      → serve writes (some a) c ≡ running d
      → serve_fifos writes n j (ready_at slot a) c ≡ running d
  unfolding serve_fifos
  serve_fifos-slot zero j c d h k e = absurd (omega arith)
  serve_fifos-slot (suc n) j c d h k e = elim (Bool-cases (j == slot)) [
    | inl q ↦ rw (q, e) (serve_fifos-behind n (j + 1) d (ground arith))
    | inr q ↦ rw (q, serve) (serve_fifos-slot n (j + 1) c d (ground arith) (omega arith) e)
  ]

module _ (opens : Bytes → ℤ) (num : ℕ) where
  round_lem :
      (a : Arriving) (c : Controller) (d : Directory)
      → IsSound num a
      → Agrees opens num c d
      → (c' : Controller) × (d' : Directory) × (round (pos num) (poll_of a) c ≡ running c')
        × Serves d a.request d'
        × Agrees opens num c' d'
  unfolding round serve keyboard
  round_lem a c d s agrees =
      let (c', d', e, serves, agrees') = serves_request opens num a.writes c d agrees s.sound in
      (
        c',
        d',
        serve_fifos-slot a.writes a.slot (arrival_of a) num 0 c c' (omega arith)
            (omega (arith, s.in_slots))
            (ap (λ m. m >>= λ message. controller_receive a.writes message c)
                (receive_frame (request_text a.request) [] a.garbage (request_text-Lacks a.request)
                  s.fits)
              ∙ e),
        serves,
        agrees',
      )

  rounds_lem :
      (arrivals : List Arriving) (c : Controller) (d : Directory)
      → All (IsSound num) arrivals
      → Agrees opens num c d
      → (c' : Controller) × (d' : Directory) × (rounds (pos num) (map poll_of arrivals) c
          ≡ running c')
        × ServesAll d (map (λ (a : Arriving). a.request) arrivals) d'
        × Agrees opens num c' d'
  unfolding rounds
  rounds_lem [] c d s agrees = (c, d, refl, no_more d, agrees)
  rounds_lem (a ∷ arrivals) c d s agrees =
      let (c', d', e, serves, agrees') = round_lem a c d s.0 agrees in
      let (c'', d'', f, all, done) = rounds_lem arrivals c' d' s.1 agrees' in
      (
        c'',
        d'',
        ap (λ m. m >>= rounds (pos num) (map poll_of arrivals)) e ∙ f,
        one_more serves all,
        done,
      )

  start_lem : start opens (pos num) ≡ running (initial opens num)
  unfolding start
  start_lem = ground arith

  -- The controller implements the directory. Let it start for `num` switches, and in each round
  -- let one request of a switch with a number from 1 to `num` arrive through any of its FIFOs, as the text
  -- that the switch writes with a NUL behind it; the request's numbers are of type `int` and its text is shorter
  -- than the buffer, whose contents do not matter. Then the controller runs to the end, and there is a course of the
  -- directory that serves the same requests in the same order: the table of switches is the
  -- directory's list of members, and the writes of the controller are exactly the directory's answers in
  -- their order, each to the FIFO of the switch that asked. This holds whether the writes succeed or not.
  pub rounds-ServesAll :
      (arrivals : List Arriving)
      → All (IsSound num) arrivals
      → (c : Controller) × (d : Directory) × ((start opens (pos num)
            >>= rounds (pos num) (map poll_of arrivals))
          ≡ running c)
        × ServesAll nobody (map (λ (a : Arriving). a.request) arrivals) d
        × (c.switches ≡ d.members)
        × (sent c.out ≡ map (frame_of opens) d.answers)
  rounds-ServesAll arrivals s =
      let (c, d, e, serves, agrees) =
        rounds_lem arrivals (initial opens num) nobody s agrees_at_start in
      (
        c,
        d,
        ap (λ m. m >>= rounds (pos num) (map poll_of arrivals)) start_lem ∙ e,
        serves,
        agrees.same_members,
        agrees.same_answers,
      )
    where
      agrees_at_start : Agrees opens num (initial opens num) nobody
      agrees_at_start = record { same_members = refl; same_sessions = refl; same_answers = refl }
