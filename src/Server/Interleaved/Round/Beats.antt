-- ===== src/Server/Interleaved/Round/Beats.antt =====
-- The heartbeats of a round with other handlers in it (startHeartbeats of server/server.go).
use psk_db.Prelude.{
  ℕ, ℤ, pos, negsuc, ◌<ℤ◌, ◌+ℤ◌, eqb_ℤ_iff, arith, String, ◌≡◌, refl, ap, ◌∙◌, subst, some, List,
  [], ◌∷◌, All, inl, inr, Option-cases, length,
}
use psk_db.Timestamp.{max_int}
use psk_db.Timestamp.Fraction.{frac-one}
use psk_db.Common.{Conn}
use psk_db.Server.State.{
  Time, ServerInfo, heartbeat_notification as heartbeat_notification_call, Action, sent, Server,
}
use psk_db.Server.Connect.{Dial}
use psk_db.Server.Membership.{values}
use psk_db.Server.Heartbeat.{increment, recipients, gossip, heartbeat_round, finish_round}
use psk_db.Server.Step.{Event, run}
use psk_db.Server.Invariant.MemberList.{
  SameIds, SameIds-Members, gossip-SameIds, Leaves, check_members-Members,
}
use psk_db.Server.Invariant.Rounds.{Returns, gossip-Returns}
use psk_db.Server.Invariant.Defs.{IsValid, with_list-IsValid}
use psk_db.Server.Invariant.Events.{IsValidEvent, run-IsValid, enough_recipients}
use psk_db.Server.Heartbeat.Sent.{Makes, AllMake, gossip-AllMake}
use psk_db.Server.Interleaved.Round.{beat_tick, beat_check, beat_call, beat_send, interleaved_round}
use psk_db.Server.Interleaved.Round.Own.{own, SameOwn, NoRound, run-SameOwn}

-- Without other handlers in it, the round is the one that is taken as one step.
interleaved_round-alone :
    (dial : Dial) (now : Time) (perm : ℕ → List ℕ) (s : Server)
    → interleaved_round dial now perm [] [] s ≡ heartbeat_round dial now perm s
unfolding interleaved_round heartbeat_round run
interleaved_round-alone dial now perm s = refl

-- The action is a heartbeat that begins with an entry of this id and sequence number.
abbrev pub Beats : String × ℤ → Action → Type 0
Beats (id, seqnum) action =
    (member : String) × (c : Conn) × (info : ServerInfo) × (members : List ServerInfo) × (action
      ≡ sent member c
          (heartbeat_notification_call (record { id = id; server_info_list = info ∷ members })))
    × (info.id ≡ id)
    × (info.heartbeat_seqnum ≡ seqnum)

Makes-Beats :
    (s : Server) (actions : List Action)
    → All (Makes (beat_call s)) actions
    → All (Beats (own s)) actions
Makes-Beats s [] h = tt
Makes-Beats s (action ∷ actions) ((member, c, e), h) =
    ((member, c, s.curr_server_info, values s.server_map, e, refl, refl), Makes-Beats s actions h)

beat_send-Beats :
    (dial : Dial) (perm : ℕ → List ℕ) (s : Server)
    → ((n : ℕ) → length (perm n) ≡ n)
    → IsValid s
    → (t : Server) × (actions : List Action) × (beat_send dial perm s ≡ some (t, actions))
      × IsValid t
      × (own t ≡ own s)
      × All (Beats (own s)) actions
unfolding beat_send
beat_send-Beats dial perm s fits v =
    let members = s.server_map in
    let numbers = recipients perm (length members) in
    let call = beat_call s in
    elim (Option-cases (gossip dial s.blacklist_map call numbers 0 0 members)) [
      | inl e ↦ absurd (
          subst Returns e (
            gossip-Returns dial s.blacklist_map call numbers 0 0 members
              (enough_recipients perm (length members) (fits (length members)))))
      | inr ((told, actions), e) ↦ (
        record s { server_map = told },
        actions,
        ap (finish_round s.curr_server_info s) e,
        with_list-IsValid told s
            (SameIds-Members _ members told
              (subst (Leaves (SameIds members)) e
                (gossip-SameIds dial s.blacklist_map call numbers 0 0 members))
              v.members)
            v,
        refl,
        Makes-Beats s actions
            (subst (AllMake call) e (gossip-AllMake dial s.blacklist_map call numbers 0 0 members)),
      )
    ]

beat_tick-IsValid : (s : Server) → IsValid s → IsValid (beat_tick s)
beat_tick-IsValid s v = record {
  members = v.members;
  entries = v.entries;
  clock = rw frac-one v.clock;
}

-- The number after this one, which after the greatest int64 is the least.
abbrev pub IsNext : ℤ → ℤ → Type 0
IsNext n next = ((n <ℤ pos max_int) → next ≡ n +ℤ pos 1) × (n ≡ pos max_int → next ≡ negsuc max_int)

increment-IsNext : (n : ℤ) → IsNext n (increment n)
unfolding increment
increment-IsNext n = (λ h. ground (arith, eqb_ℤ_iff n (pos max_int)), λ e. rw e refl)

-- At a well-formed server, let any events but heartbeat rounds of its own run in a heartbeat round,
-- the data that they carry well formed, and let rand.Perm(n) have n numbers. Then the round does
-- not panic and leaves a well-formed server with a sequence number one greater, or the least int64
-- after the greatest, and each of its actions is a heartbeat whose list begins with an entry of the
-- own id and that number.
pub interleaved_round-Beats :
    (dial : Dial) (now : Time) (perm : ℕ → List ℕ) (free held : List Event) (s : Server)
    → IsValid s
    → ((n : ℕ) → length (perm n) ≡ n)
    → All IsValidEvent free
    → All IsValidEvent held
    → All NoRound free
    → All NoRound held
    → (seqnum : ℤ) × IsNext s.curr_server_info.heartbeat_seqnum seqnum
      × (t : Server) × (actions : List Action) × (interleaved_round dial now perm free held s
          ≡ some (t, actions))
      × IsValid t
      × (own t ≡ (s.curr_server_info.id, seqnum))
      × All (Beats (s.curr_server_info.id, seqnum)) actions
unfolding interleaved_round
interleaved_round-Beats dial now perm free held s v fits valid_free valid_held no_free no_held =
    let tick = beat_tick-IsValid s v in
    let (t, ran, v_t) = run-IsValid free (beat_tick s) valid_free tick in
    let own_t = subst (SameOwn (own (beat_tick s))) ran (run-SameOwn free (beat_tick s) no_free) in
    let checked =
      with_list-IsValid _ t (check_members-Members now _ t.server_map v_t.members) v_t in
    let (u, ran_u, v_u) = run-IsValid held (beat_check now t) valid_held checked in
    let own_u = subst (SameOwn (own t)) ran_u (run-SameOwn held (beat_check now t) no_held) in
    let (w, actions, ended, v_w, own_w, beats) = beat_send-Beats dial perm u fits v_u in
    (
      increment s.curr_server_info.heartbeat_seqnum,
      increment-IsNext s.curr_server_info.heartbeat_seqnum,
      w,
      actions,
      rw (ran, interleaved_round, ran_u) ended,
      v_w,
      own_w ∙ own_u ∙ own_t,
      subst (λ o. All (Beats o) actions) (own_u ∙ own_t) beats,
    )
