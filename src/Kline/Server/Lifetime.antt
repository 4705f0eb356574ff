-- ===== src/Kline/Server/Lifetime.antt =====
-- kline/cmd/server/main.go behind the bootstrap: the entries and the copies of the flushes are those
-- of the pairs, so that no flush writes to the file of another pair.
use fidorix.Base.{
  ℕ, ◌≤◌, ◌<◌, ◌≡◌, ◌≢◌, refl, sym, ap, ◌∙◌, subst, inl, inr, ◌⊎◌, Bool, false, Option, none, some,
  List, [], ◌∷◌, All, All-imp, get_elem?, length, ℤ, Text, Codec, IsFaithful, Result, Disk,
  is_empty, ok, lookup, err, lookup-Each, lookup-insert_found, Each-of_lookup, trim_space,
}
use fidorix.Kline.Candle.{Candle}
use fidorix.Kline.Store.{
  CandleFile, Entry, Store, key_for, clone_entry, get_dirty, clear_dirty, upsert,
}
use fidorix.Kline.Store.Invariant.{IsValidEntry, IsValid, upsert-IsValid}
use fidorix.Kline.Files.{PathError, SaveError, SaveEnv, save_file, file_path_for_entry}
use fidorix.Kline.Files.Written.{Avoids}
use fidorix.Kline.Files.Loop.{
  Flow, Event, stored, tick, proceeds, saved_next, save_at, move_on, begin, advance_all,
}
use fidorix.Kline.Files.Loop
use fidorix.Kline.Files.Ending.{tick-IsValid, proceeds-IsValid, IsClear, AreClear}
use fidorix.Kline.Files.Ending.Ticks.{All-dirty_entries}
use fidorix.Kline.Files.Ending.Moves.{clear_dirty_origin}
use fidorix.Kline.Rest.Bootstrap.{Pairing}
use fidorix.Kline.Rest.Schedule.{Goroutine, key, path, all_entered, run_schedule}
use fidorix.Kline.Rest.Schedule.Isolated.{turns_of, AreApart, IsApart-get_elem?}
use fidorix.Kline.Rest.Schedule.Outcome.{IsPlain, AllDiffer}
use fidorix.Kline.Rest.Schedule.Saved.{IsUsual, path_of_names}
use fidorix.Kline.Rest.Schedule.Durable.{Covers, run_schedule-IsOfPair}

-- An entry behind an upsert is the one that was upserted, or was there.
upsert_found :
    (s : Store) (symbol interval : Text) (c : Candle) (k : Text) (e : Entry)
    → lookup k (upsert s symbol interval c).0.entries ≡ some e
    → ((key_for symbol interval ≡ k) × (e.file.symbol ≡ symbol) × (e.file.interval ≡ interval))
      ⊎ (lookup k s.entries ≡ some e)
unfolding upsert
upsert_found s symbol interval c k e found =
    elim (lookup-insert_found (key_for symbol interval) k _ e s.entries found) [
      | inr old ↦ inr old
      | inl (keyed, same) ↦ inl (
        keyed,
        sym (ap (λ (x : Entry). x.file.symbol) same),
        sym (ap (λ (x : Entry). x.file.interval) same),
      )
    ]

module _ {B : Type 0} (json : Codec CandleFile B) (base : Text) (gs : List (Goroutine B)) where
  -- An entry stands for the pair of a goroutine, and its file names it.
  pub record IsNamed (k : Text) (e : Entry) : Type 0 where
    pub place : ℕ
    pub goroutine : Goroutine B
    pub at : get_elem? gs place ≡ some goroutine
    pub keyed : key goroutine ≡ k
    pub plain : IsPlain goroutine
    pub trimmed : trim_space goroutine.job.interval ≡ goroutine.job.interval
    pub symbol : e.file.symbol ≡ goroutine.job.wire
    pub interval : e.file.interval ≡ goroutine.job.interval

  abbrev pub AreNamed : Store → Type 0
  AreNamed s = (k : Text) (e : Entry) → lookup k s.entries ≡ some e → IsNamed k e

  -- A candle that is stored is of the pair of a goroutine.
  abbrev pub IsOwn : Event B → Type 0
  IsOwn (stored symbol interval c) =
      (i : ℕ) × (g : Goroutine B) × (get_elem? gs i ≡ some g)
      × IsPlain g
      × (trim_space g.job.interval ≡ g.job.interval)
      × (symbol ≡ g.job.wire)
      × (interval ≡ g.job.interval)
  IsOwn tick = Unit
  IsOwn (proceeds env) = Unit

  pub upsert-AreNamed :
      (s : Store) (symbol interval : Text) (c : Candle)
      → IsOwn (stored symbol interval c)
      → AreNamed s
      → AreNamed (upsert s symbol interval c).0
  upsert-AreNamed s symbol interval c (i, g, at, plain, trimmed, wire, same) h k e found =
      elim (upsert_found s symbol interval c k e found) [
        | inr old ↦ h k e old
        | inl (keyed, names, times) ↦ record {
          place = i;
          goroutine = g;
          at = at;
          keyed = rw (wire, same) at keyed;
          plain = plain;
          trimmed = trimmed;
          symbol = names ∙ wire;
          interval = times ∙ same;
        }
      ]

  -- Entries of different pairs have different paths.
  named-Avoids :
      (k j : Text) (e w : Entry) (p : Text)
      → AreApart base gs
      → IsNamed k e
      → IsNamed j w
      → j ≢ k
      → file_path_for_entry base e ≡ ok p
      → Avoids json base p w
  named-Avoids k j e w p apart x y ne at q at' =
      let g = x.goroutine in
      let h = y.goroutine in
      let other : x.place ≢ y.place = λ s. ne (sym y.keyed ∙ ap key (same_goroutine s) ∙ x.keyed) in
      let distinct = IsApart-get_elem? base gs x.place y.place g h apart x.at y.at other in
      let here : p ≡ path base g =
        ok_inj at (path_of_names json base g e x.plain x.trimmed x.symbol x.interval) in
      let there : q ≡ path base h =
        ok_inj at' (path_of_names json base h w y.plain y.trimmed y.symbol y.interval) in
      rw (here, there) (λ s. distinct.1 (sym s), distinct.3)
    where
      ok_inj : {r : Result PathError Text} {a b : Text} → r ≡ ok a → r ≡ ok b → a ≡ b
      ok_inj s t = cc

      unsome : {a b : Goroutine B} → some a ≡ some b → a ≡ b
      unsome s = cc

      same_goroutine : x.place ≡ y.place → y.goroutine ≡ x.goroutine
      same_goroutine s = unsome (sym y.at ∙ ap (get_elem? gs) (sym s) ∙ x.at)

  -- The copies of a flush are named as well.
  pub record FlowIsNamed (w : Flow B) : Type 0 where
    pub entries : AreNamed w.store
    pub copies : All (λ x. IsNamed x.key x) w.pending

  IsClear-of_named :
      (k : Text) (w : Flow B) → AreApart base gs → FlowIsNamed w → IsClear json base k w
  IsClear-of_named k w apart h e p found at =
      All-imp (λ x. IsNamed x.key x) (λ x. x.key ≢ k → Avoids json base p x) w.pending
        (λ x n ne. named-Avoids k x.key e x p apart (h.entries k e found) n ne at) h.copies

  get_dirty-IsNamed :
      (s : Store) → IsValid s → AreNamed s → All (λ x. IsNamed x.key x) (get_dirty s)
  unfolding get_dirty
  get_dirty-IsNamed s v h =
      All-dirty_entries (λ x. IsNamed x.key x) s.entries
        (Each-of_lookup (λ j w. IsNamed (clone_entry w).key (clone_entry w)) s.entries v.distinct
          (λ j w there.
            let n = h j w there in
            let at : (clone_entry w).key ≡ j =
              unfold clone_entry in (lookup-Each IsValidEntry j w s.entries v.each there).keyed in
            record {
              place = n.place;
              goroutine = n.goroutine;
              at = n.at;
              keyed = n.keyed ∙ sym at;
              plain = n.plain;
              trimmed = n.trimmed;
              symbol = unfold clone_entry in n.symbol;
              interval = unfold clone_entry in n.interval;
            }))

  tick-FlowIsNamed :
      (w : Flow B) → IsValid w.store → FlowIsNamed w → FlowIsNamed (Loop.advance json base tick w)
  unfolding Loop.advance
  tick-FlowIsNamed w v h = of_parts w.clearing w.pending
    where
      of_parts : (cl : Option Text) (es : List Entry) → FlowIsNamed (begin json base w cl es)
      of_parts (some j) es = h
      of_parts none (x ∷ es) = h
      of_parts none [] = record {
        entries = h.entries;
        copies = get_dirty-IsNamed w.store v h.entries;
      }

  clear_dirty-AreNamed : (s : Store) (j : Text) → AreNamed s → AreNamed (clear_dirty s j)
  clear_dirty-AreNamed s j h k e found =
      let (o, there, same) = clear_dirty_origin k s j e found in
      let n = h k o there in
      subst (IsNamed k) same (record {
        place = n.place;
        goroutine = n.goroutine;
        at = n.at;
        keyed = n.keyed;
        plain = n.plain;
        trimmed = n.trimmed;
        symbol = n.symbol;
        interval = n.interval;
      })

  proceeds-FlowIsNamed :
      (env : SaveEnv B) (w : Flow B)
      → FlowIsNamed w
      → FlowIsNamed (Loop.advance json base (proceeds env) w)
  unfolding Loop.advance
  proceeds-FlowIsNamed env w h = of_parts w.clearing w.pending refl
    where
      saved :
          (x : Entry) (es : List Entry) (r : Disk B × Option SaveError)
          → w.pending ≡ x ∷ es
          → FlowIsNamed (saved_next json base x es w r)
      saved x es (d, none) at = record {
        entries = h.entries;
        copies = (subst (All (λ y. IsNamed y.key y)) at h.copies).1;
      }
      saved x es (d, some error) at = record {
        entries = h.entries;
        copies = (subst (All (λ y. IsNamed y.key y)) at h.copies).1;
      }

      of_path :
          (x : Entry) (es : List Entry) (r : Result PathError Text)
          → w.pending ≡ x ∷ es
          → FlowIsNamed (save_at json base env x es w r)
      of_path x es (err bad) at = record {
        entries = h.entries;
        copies = (subst (All (λ y. IsNamed y.key y)) at h.copies).1;
      }
      of_path x es (ok p) at = saved x es (save_file json env p x.file w.disk) at

      of_parts :
          (cl : Option Text) (es : List Entry)
          → w.pending ≡ es
          → FlowIsNamed (move_on json base env w cl es)
      of_parts (some j) es at = record {
        entries = clear_dirty-AreNamed w.store j h.entries;
        copies = h.copies;
      }
      of_parts none [] at = h
      of_parts none (x ∷ es) at = of_path x es (file_path_for_entry base x) at

  -- So the paths of the pairs are clear all along a run.
  pub AreClear-of_named :
      (k : Text) (events : List (Event B)) (w : Flow B)
      → AreApart base gs
      → All IsOwn events
      → IsValid w.store
      → FlowIsNamed w
      → AreClear json base k events w
        × FlowIsNamed (advance_all json base events w)
        × IsValid (advance_all json base events w).store
  unfolding advance_all
  AreClear-of_named k [] w apart own v h = (IsClear-of_named k w apart h, h, v)
  AreClear-of_named k (stored symbol interval c ∷ events) w apart own v h =
      let (clear, named, valid) =
        AreClear-of_named k events (Loop.advance json base (stored symbol interval c) w) apart own.1
          (unfold Loop.advance in upsert-IsValid w.store symbol interval c v)
          (unfold Loop.advance in
            record {
              entries = upsert-AreNamed w.store symbol interval c own.0 h.entries;
              copies = h.copies;
            }) in
      ((IsClear-of_named k w apart h, clear), named, valid)
  AreClear-of_named k (tick ∷ events) w apart own v h =
      let (clear, named, valid) =
        AreClear-of_named k events (Loop.advance json base tick w) apart own.1
          (tick-IsValid json base w v) (tick-FlowIsNamed w v h) in
      ((IsClear-of_named k w apart h, clear), named, valid)
  AreClear-of_named k (proceeds env ∷ events) w apart own v h =
      let (clear, named, valid) =
        AreClear-of_named k events (Loop.advance json base (proceeds env) w) apart own.1
          (proceeds-IsValid json base env w v) (proceeds-FlowIsNamed env w h) in
      ((IsClear-of_named k w apart h, clear), named, valid)

  -- The bootstrap leaves named entries.
  pub behind-AreNamed :
      (limit : ℤ) (has_db : Bool) (turns : List ℕ) (p : Pairing B) (faithful : IsFaithful json)
      (filled : is_empty base ≡ false) (usual : All (IsUsual json base p.disk) gs)
      (differ : AllDiffer gs) (enough : (i : ℕ) → i < length gs → 5 ≤ turns_of i turns)
      (covers : Covers json base gs p.store)
      → AreNamed (run_schedule json limit has_db base gs turns (all_entered p)).shared.store
  behind-AreNamed limit has_db turns p faithful filled usual differ enough covers j w there =
      let x =
        run_schedule-IsOfPair json base limit has_db gs turns p faithful filled usual differ enough
          covers j w there in
      record {
        place = x.place;
        goroutine = x.goroutine;
        at = x.at;
        keyed = x.keyed;
        plain = x.is_usual.plain;
        trimmed = x.is_usual.trimmed;
        symbol = x.saved.symbol;
        interval = x.saved.interval;
      }
