-- ===== src/Orderbook/Websocket/Client/Sockets.antt =====
-- Who owns the open sockets, along every run of the client.
use fidorix.Base.{
  ℕ, ◌≡◌, ℤ, refl, sym, ◌∙◌, ap, inl, inr, Bool, true, false, ◌==◌, Option, none, some, Bool-cases,
  if◌then◌else◌, arith, Result,
}
use fidorix.Orderbook.Websocket.{WsConfig, ParseError, MessageType}
use fidorix.Orderbook.Websocket.Client.{
  Phase, absent, connecting, dialled, subscribed, registered, reading, stopped, unregistered,
  Client, new_client, start_phases, moved, shut, Step, Run,
}
use fidorix.Orderbook.Websocket.Client.Held.{
  at_id, IsHeld, same-IsHeld, shut-IsHeld, clear-IsHeld, stay-IsHeld, dial-IsHeld, register-IsHeld,
  unregister-IsHeld, drop-IsHeld,
}

-- The socket that a loop has, and that which it has and has registered.
abbrev pub socket : Phase → Option ℕ
socket (dialled once delay c) = some c
socket (subscribed once c) = some c
socket (registered once c) = some c
socket (reading c) = some c
socket (stopped c) = some c
socket (unregistered c) = some c
socket _ = none

abbrev pub listed : Phase → Option ℕ
listed (registered once c) = some c
listed (reading c) = some c
listed (stopped c) = some c
listed _ = none

abbrev is_there : Phase → Bool
is_there absent = false
is_there _ = true

-- Before Start there is no loop, and the sockets are held.
pub record IsSound {Event : Type 0} (w : Client Event) : Type 0 where
  pub idle : w.started ≡ false → (id : ℕ) → w.phases id ≡ absent
  pub held :
      IsHeld (λ id. socket (w.phases id)) (λ id. listed (w.phases id)) w.conns w.made w.is_open

at_id-move :
    (f : Phase → Option ℕ) (phases : ℕ → Phase) (id : ℕ) (q : Phase) (i : ℕ)
    → at_id id (f q) (λ j. f (phases j)) i ≡ f (if id == i then q else phases i)
at_id-move f phases id q i = elim (Bool-cases (id == i)) [ inl e ↦ rw e | inr e ↦ rw e ]

module _ {Event : Type 0} (w : Client Event) (h : IsSound w) (id : ℕ) (p : Phase)
    (at : w.phases id ≡ p) (there : is_there p ≡ true) where
  there_is : w.started ≡ false → ⊥
  there_is off = clash (sym there ∙ ap is_there (sym at ∙ h.idle off id))
    where
      clash : true ≡ false → ⊥
      clash e = cc

  -- A loop that is there moves to the phase `q`, and the rest of the client changes.
  moved-IsSound :
      (v : Client Event) (q : Phase)
      → v.started ≡ w.started
      → v.phases ≡ w.phases
      → IsHeld
          (at_id id (socket q) (λ i. socket (w.phases i)))
          (at_id id (listed q) (λ i. listed (w.phases i)))
          v.conns
          v.made
          v.is_open
      → IsSound (moved v id q)
  moved-IsSound v q same_start same_phases held = record {
    idle = λ off. absurd (there_is (sym same_start ∙ off));
    held =
        same-IsHeld (λ i. rw same_phases (at_id-move socket w.phases id q i))
          (λ i. rw same_phases (at_id-move listed w.phases id q i)) held;
  }

  -- It keeps what it has, and the registry is as it was.
  stays-IsSound :
      (v : Client Event) (q : Phase)
      → v.started ≡ w.started
      → v.phases ≡ w.phases
      → v.conns ≡ w.conns
      → v.made ≡ w.made
      → v.is_open ≡ w.is_open
      → socket p ≡ socket q
      → listed p ≡ listed q
      → IsSound (moved v id q)
  stays-IsSound v q a b c d e f g = moved-IsSound v q a b (
      rw (c, d, e)
        (stay-IsHeld _ _ w.conns w.made w.is_open h.held id (socket q) (listed q) (ap socket at ∙ f)
          (ap listed at ∙ g)))

shut-IsSound : {Event : Type 0} (w : Client Event) (c : ℕ) → IsSound w → IsSound (shut c w)
shut-IsSound w c h = record {
  idle = h.idle;
  held = shut-IsHeld _ _ w.conns w.made w.is_open h.held c;
}

-- A loop that has closed its socket lets go of it.
dropped-IsSound :
    {Event : Type 0} (w : Client Event) (id c : ℕ) (p q : Phase)
    → IsSound w
    → w.phases id ≡ p
    → is_there p ≡ true
    → socket p ≡ some c
    → listed p ≡ none
    → socket q ≡ none
    → listed q ≡ none
    → IsSound (moved (shut c w) id q)
dropped-IsSound w id c p q h at there has free gone unlisted =
    let s = shut-IsSound w c h in
    moved-IsSound (shut c w) s id p at there (shut c w) q refl refl (
      rw (gone, unlisted)
        (drop-IsHeld _ _ w.conns w.made (shut c w).is_open s.held id c (ap socket at ∙ has)
          (ap listed at ∙ free) (ground arith)))

-- A loop that starts has no socket.
socket-start : (b : Bool) (d : ℤ) → none ≡ socket (if b then connecting false d else absent)
socket-start true d = refl
socket-start false d = refl

listed-start : (b : Bool) (d : ℤ) → none ≡ listed (if b then connecting false d else absent)
listed-start true d = refl
listed-start false d = refl

started-IsSound :
    {Event : Type 0} (cfg : WsConfig) (w : Client Event)
    → w.started ≡ false
    → IsSound w
    → IsSound (record w { started = true; phases = start_phases cfg })
started-IsSound cfg w off h = record {
  idle = λ e. cc;
  held =
      same-IsHeld (λ i. ap socket (h.idle off i) ∙ socket-start _ cfg.reconnect_delay_sec)
        (λ i. ap listed (h.idle off i) ∙ listed-start _ cfg.reconnect_delay_sec) h.held;
}

module _ {B Event : Type 0} (cfg : WsConfig)
    (parse : MessageType → B → Result ParseError (Option Event)) where
  Step-IsSound : (w v : Client Event) → Step cfg parse w v → IsSound w → IsSound v
  Step-IsSound w _ (Step.start off) h = started-IsSound cfg w off h
  Step-IsSound w _ Step.cancel h = record { idle = h.idle; held = h.held }
  Step-IsSound w _ Step.close_conns h = record {
    idle = h.idle;
    held = clear-IsHeld _ _ w.conns w.made w.is_open h.held;
  }
  Step-IsSound w _ (Step.dial_fails id once delay at) h =
      stays-IsSound w h id _ at refl w _ refl refl refl refl refl refl refl
  Step-IsSound w _ (Step.dials id once delay at) h =
      moved-IsSound w h id _ at refl _ _ refl refl
        (dial-IsHeld _ _ w.conns w.made w.is_open h.held id (ap socket at) (ap listed at))
  Step-IsSound w _ (Step.subscription_fails id once delay c at) h =
      dropped-IsSound w id c _ _ h at refl refl refl refl refl
  Step-IsSound w _ (Step.subscribes id once delay c at) h =
      stays-IsSound w h id _ at refl w _ refl refl refl refl refl refl refl
  Step-IsSound w _ (Step.registers id once c at) h =
      moved-IsSound w h id _ at refl _ _ refl refl
        (register-IsHeld _ _ w.conns w.made w.is_open h.held id c (ap socket at) (ap listed at))
  Step-IsSound w _ (Step.begins id once c at) h =
      stays-IsSound w h id _ at refl _ _ refl refl refl refl refl refl refl
  Step-IsSound w _ (Step.sleeps id once delay at on) h =
      stays-IsSound w h id _ at refl w _ refl refl refl refl refl refl refl
  Step-IsSound w _ (Step.wakes id once delay at) h =
      stays-IsSound w h id _ at refl w _ refl refl refl refl refl refl refl
  Step-IsSound w _ (Step.gives_up_failed id once delay at off) h =
      stays-IsSound w h id _ at refl w _ refl refl refl refl refl refl refl
  Step-IsSound w _ (Step.gives_up_waiting id once delay at off) h =
      stays-IsSound w h id _ at refl w _ refl refl refl refl refl refl refl
  Step-IsSound w _ (Step.reads id c message_type payload at) h = record {
    idle = h.idle;
    held = h.held;
  }
  Step-IsSound w _ (Step.ping_fails id c at) h = shut-IsSound w c h
  Step-IsSound w _ (Step.read_fails id c at) h =
      stays-IsSound w h id _ at refl w _ refl refl refl refl refl refl refl
  Step-IsSound w _ (Step.unregisters id c at) h =
      moved-IsSound w h id _ at refl _ _ refl refl
        (unregister-IsHeld _ _ w.conns w.made w.is_open h.held id c (ap socket at) (ap listed at))
  Step-IsSound w _ (Step.closes id c at) h =
      dropped-IsSound w id c _ _ h at refl refl refl refl refl
  Step-IsSound w _ (Step.exits id at off) h =
      stays-IsSound w h id _ at refl w _ refl refl refl refl refl refl refl
  Step-IsSound w _ (Step.goes_on id at on) h =
      stays-IsSound w h id _ at refl w _ refl refl refl refl refl refl refl

  new_client-IsSound : IsSound {Event = Event} new_client
  new_client-IsSound = record {
    idle = λ e id. refl;
    held = record {
      once = tt;
      within = λ i c e. cc;
      fresh = λ i c e. cc;
      single = λ i j c e f. cc;
      owned = λ c e. cc;
      known = λ i c e. cc;
      seen = λ i c e f. cc;
    };
  }

  pub Run-IsSound : {w v : Client Event} → Run cfg parse w v → IsSound w → IsSound v
  Run-IsSound Run.here h = h
  Run-IsSound (Run.next {v} {x} r st) h = Step-IsSound v x st (Run-IsSound r h)

  pub new_client-Run : {w : Client Event} → Run cfg parse new_client w → IsSound w
  new_client-Run r = Run-IsSound r new_client-IsSound
