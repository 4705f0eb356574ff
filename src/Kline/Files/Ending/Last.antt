-- ===== src/Kline/Files/Ending/Last.antt =====
-- The last flush of main: what it leaves in the files.
use fidorix.Base.{
  ◌≡◌, sym, ◌∙◌, subst, inl, inr, ◌⊎◌, true, false, none, some, List, [], ◌∷◌, Text, Codec,
  IsFaithful, lookup,
}
use fidorix.Kline.Store.{CandleFile, Entry}
use fidorix.Kline.Store.Invariant.{IsValid}
use fidorix.Kline.Files.Loop.{Flow, Event, stored, tick, proceeds, advance, advance_all}
use fidorix.Kline.Files.Durable.{IsPersisted}
use fidorix.Kline.Files.Ending.{tick-IsValid, AreCalm, AreClear}
use fidorix.Kline.Files.Ending.Moves.{advance_all-Holds}
use fidorix.Kline.Files.Ending.Handled.{
  IsIdle, has_key, AreLast, idle_tick-Handled, advance_all-Handled,
}

module _ {B : Type 0} (json : Codec CandleFile B) (base : Text) (k : Text) where
  AreCalm-of_last :
      (events : List (Event B)) (w : Flow B)
      → AreLast json base k events w
      → AreCalm json base k events w
  AreCalm-of_last [] w h = tt
  AreCalm-of_last (stored symbol interval c ∷ events) w h =
      (λ e. absurd (h.0 e), AreCalm-of_last events _ h.1)
  AreCalm-of_last (tick ∷ events) w h = (tt, AreCalm-of_last events _ h.1)
  AreCalm-of_last (proceeds env ∷ events) w h = (tt, AreCalm-of_last events _ h.1)

  -- From the candles that are stored to the files: candles come between any moves of the flushes,
  -- and what a flush cannot save the next one tries again. When main has ended, the file of a
  -- pair is read with the candles of its entry. This holds if no flush goes on at the start, the
  -- store is valid and the entry of the pair in its file or dirty, if what is encoded is decoded,
  -- no candle of the pair comes while a flush has a copy of it that it still has to save or to
  -- clear, nor behind the start of the last flush, if the last flush begins when no other goes
  -- on, saves its copy of the pair and runs to its end, and if no copy of another pair resolves
  -- to the path of the pair or has it as its temporary file.
  pub run_to_end-IsPersisted :
      (events last : List (Event B)) (w : Flow B) (e : Entry)
      → IsFaithful json
      → IsIdle w
      → IsValid w.store
      → ((x : Entry)
          → lookup k w.store.entries ≡ some x
          → x.dirty ≡ false
          → IsPersisted json base w.disk x)
      → AreCalm json base k events w
      → AreClear json base k events w
      → IsIdle (advance_all json base events w)
      → AreLast json base k last (advance json base tick (advance_all json base events w))
      → AreClear json base k (tick ∷ last) (advance_all json base events w)
      → IsIdle (advance_all json base (tick ∷ last) (advance_all json base events w))
      → lookup k
          (advance_all json base (tick ∷ last) (advance_all json base events w)).store.entries
        ≡ some e
      → IsPersisted json base
          (advance_all json base (tick ∷ last) (advance_all json base events w)).disk
          e
  unfolding advance_all
  run_to_end-IsPersisted events last w e faithful idle v durable calm clear idle' is_last clear'
        idle'' found =
      let h = advance_all-Holds json base k faithful events w calm clear (record {
        valid = v;
        durable = λ x there b. durable x there (clean_of x b);
        copied = λ x there. rw idle.pending tt;
      }) in
      let u = advance_all json base events w in
      let handled =
        advance_all-Handled json base k faithful last _ is_last (tick-IsValid json base u h.valid)
          (idle_tick-Handled json base k u idle' h.valid) in
      let held =
        advance_all-Holds json base k faithful (tick ∷ last) u (tt, AreCalm-of_last last _ is_last)
          clear' h in
      held.durable e found (inl (over e (handled e found)))
    where
      clean_of : (x : Entry) → (x.dirty ≡ false) ⊎ (w.clearing ≡ some k) → x.dirty ≡ false
      clean_of x (inl c) = c
      clean_of x (inr c) = absurd (none_some (sym idle.clearing ∙ c))
        where
          none_some : none ≡ some k → ⊥
          none_some q = cc

      over :
          (x : Entry)
          → (x.dirty ≡ false)
            ⊎ (((advance_all json base last
                    (advance json base tick (advance_all json base events w))).clearing
                  ≡ some k)
                ⊎ (has_key k
                      (advance_all json base last
                        (advance json base tick (advance_all json base events w))).pending
                    ≡ true))
          → x.dirty ≡ false
      over x (inl c) = c
      over x (inr (inl c)) = absurd (none_some (sym idle''.clearing ∙ c))
        where
          none_some : none ≡ some k → ⊥
          none_some q = cc
      over x (inr (inr c)) = absurd (false_true (subst (λ l. has_key k l ≡ true) idle''.pending c))
        where
          false_true : false ≡ true → ⊥
          false_true q = cc
