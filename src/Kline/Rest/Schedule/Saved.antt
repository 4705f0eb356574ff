-- ===== src/Kline/Rest/Schedule/Saved.antt =====
-- What bootstrapPair leaves of a pair: its entry is in its file.
use fidorix.Base.{
  ◌≡◌, refl, sym, ap, ◌∙◌, subst, inl, inr, Bool, true, false, Option-cases, some, List, [], ◌∷◌,
  elems, ℤ, Text, Codec, IsFaithful, Disk, is_empty, trim_space, trim_space_of_IsTrimmed,
  trim_space_idem, remove_all, lookup, lookup-insert_self, ok, arith,
}
use fidorix.Kline.Candle.{Candle}
use fidorix.Kline.Symbol.{to_file}
use fidorix.Kline.Symbol.Wire.{remove_all-to_mexc, to_mexc-IsTrimmed}
use fidorix.Kline.Candle.Place.{IsSorted}
use fidorix.Kline.Store.{CandleFile, Entry, Store, key_for, load, or_default}
use fidorix.Kline.Files.{stamped, located, load_file, file_path_for_entry}
use fidorix.Kline.Rest.Bootstrap.{
  pair_path, file_or_empty, existing_file, merged_file, Pairing, bootstrap_pair,
}
use fidorix.Kline.Rest.Bootstrap.Pair.{merged, IsMerged, IsKept, bootstrap_pair_result}
use fidorix.Kline.Rest.Schedule.{Goroutine, key, path}
use fidorix.Kline.Rest.Schedule.Outcome.{IsPlain}

-- The entry that Load leaves.
load_entry :
    (s : Store) (wire interval : Text) (cf : CandleFile) (e : Entry)
    → lookup (key_for wire interval) (load s wire interval cf).entries ≡ some e
    → (e.file.symbol ≡ or_default cf.symbol wire)
      × (e.file.interval ≡ or_default cf.interval interval)
      × (elems e.file.candles ≡ elems cf.candles)
      × (e.dirty ≡ false)
unfolding load
load_entry s wire interval cf e found =
    let same = sym (lookup-insert_self (key_for wire interval) _ s.entries) ∙ found in
    ground (arith, same)

or_default_self : (s : Text) → or_default s s ≡ s
or_default_self [] = refl
or_default_self (c ∷ s) = refl

module _ {B : Type 0} (json : Codec CandleFile B) (base : Text) where
  -- The pair can be read, its file names it or nothing, and its interval has no space at an end.
  pub record IsUsual (disk : Disk B) (g : Goroutine B) : Type 0 where
    pub plain : IsPlain g
    pub trimmed : trim_space g.job.interval ≡ g.job.interval
    pub readable : g.env.readable ≡ true
    pub symbol :
        or_default (load_file json true (path base g) disk).0.symbol g.job.wire ≡ g.job.wire
    pub interval :
        or_default (load_file json true (path base g) disk).0.interval g.job.interval
        ≡ g.job.interval

  -- The candles of the file are in order.
  abbrev pub InOrder : Disk B → Goroutine B → Type 0
  InOrder disk g = IsSorted (elems (load_file json true (path base g) disk).0.candles)

  located-path :
      (g : Goroutine B) → IsPlain g → located base (g.job.wire, g.job.interval) ≡ ok (path base g)
  unfolding pair_path to_file
  located-path g x = rw (
    x.wire,
    remove_all-to_mexc g.job.file_symbol x.one_part,
    trim_space_idem g.job.file_symbol,
    x.named,
  )

  wire_trimmed : (g : Goroutine B) → IsPlain g → trim_space g.job.wire ≡ g.job.wire
  wire_trimmed g x = rw x.wire (trim_space_of_IsTrimmed _ (to_mexc-IsTrimmed g.job.file_symbol))

  filled_of : (w t : Text) → remove_all b'_' w ≡ t → is_empty t ≡ false → is_empty w ≡ false
  unfolding remove_all
  filled_of [] t e filled = subst (λ x. is_empty x ≡ false) (sym e) filled
  filled_of (c ∷ w) t e filled = refl

  wire_filled : (g : Goroutine B) → IsPlain g → is_empty g.job.wire ≡ false
  wire_filled g x =
      filled_of g.job.wire (to_file g.job.file_symbol)
        (rw x.wire (remove_all-to_mexc g.job.file_symbol x.one_part)) x.named

  pub path_of_names :
      (g : Goroutine B) (e : Entry)
      → IsPlain g
      → trim_space g.job.interval ≡ g.job.interval
      → e.file.symbol ≡ g.job.wire
      → e.file.interval ≡ g.job.interval
      → file_path_for_entry base e ≡ ok (path base g)
  unfolding file_path_for_entry
  path_of_names g e x trimmed symbol interval =
      rw (symbol, interval, wire_trimmed g x, trimmed, wire_filled g x, x.interval.filled)
        (located-path g x)

  -- A file that cannot be read or decoded is taken as empty, with or without its error.
  file_or_empty-load_file :
      (p : Text) (disk : Disk B)
      → file_or_empty (load_file json true p disk) ≡ (load_file json true p disk).0
  unfolding load_file
  file_or_empty-load_file p disk = elim (Option-cases (disk p)) [
    | inl e ↦ rw e
    | inr (content, e) ↦
        rw e (elim (Option-cases (json.decode content)) [ inl d ↦ rw d | inr (cf, d) ↦ rw d ])
  ]

  pub existing_usual :
      (disk : Disk B) (g : Goroutine B)
      → IsUsual disk g
      → (let existing =
            existing_file g.job.wire g.job.interval
              (load_file json g.env.readable (path base g) disk) in
          (existing.symbol ≡ g.job.wire)
          × (existing.interval ≡ g.job.interval)
          × (elems existing.candles ≡ elems (load_file json true (path base g) disk).0.candles))
  unfolding existing_file
  existing_usual disk g usual =
      rw (usual.readable, file_or_empty-load_file (path base g) disk)
        (usual.symbol, usual.interval, refl)

  -- The entry of a pair names it and is clean, and its candles are in the file of the pair.
  pub record IsSaved (g : Goroutine B) (disk : Disk B) (e : Entry) : Type 0 where
    pub symbol : e.file.symbol ≡ g.job.wire
    pub interval : e.file.interval ≡ g.job.interval
    pub same : elems (load_file json true (path base g) disk).0.candles ≡ elems e.file.candles
    pub clean : e.dirty ≡ false

  module _ (limit : ℤ) (has_db : Bool) (g : Goroutine B) (p q : Pairing B) (e : Entry)
      (faithful : IsFaithful json) (usual : IsUsual p.disk g)
      (found : lookup (key g) q.store.entries ≡ some e) where
    merged-IsSaved :
        (candles : List Candle)
        → IsMerged json g.env limit has_db base g.job.file_symbol g.job.wire g.job.interval p
            candles q
        → IsSaved g q.disk e
    unfolding merged_file load_file
    merged-IsSaved candles m =
        let (symbol, interval, same, clean) =
          load_entry _ g.job.wire g.job.interval _ e
            (subst (λ (s : Store). lookup (key g) s.entries ≡ some e) m.store found) in
        record {
          symbol = symbol ∙ or_default_self g.job.wire;
          interval = interval ∙ or_default_self g.job.interval;
          same =
              elim (Option-cases (
                json.encode (
                  stamped g.env.save.now (
                    merged json g.env limit has_db base g.job.file_symbol g.job.wire g.job.interval
                      p candles)))) [
                        | inl none_left ↦ absurd (m.encoded none_left)
                        | inr (payload, encoded) ↦
                            rw (m.file, encoded, faithful _ payload encoded) (sym same)
                      ];
          clean = clean;
        }

    kept-IsSaved :
        IsKept json g.env limit has_db base g.job.file_symbol g.job.wire g.job.interval p q
        → IsSaved g q.disk e
    unfolding load_file
    kept-IsSaved m =
        let (symbol, interval, same, clean) =
          load_entry _ g.job.wire g.job.interval _ e
            (subst (λ (s : Store). lookup (key g) s.entries ≡ some e) m.store found) in
        let (names, times, kept) = existing_usual p.disk g usual in
        record {
          symbol = symbol ∙ ap (λ s. or_default s g.job.wire) names ∙ or_default_self g.job.wire;
          interval =
              interval
              ∙ ap (λ s. or_default s g.job.interval) times
              ∙ or_default_self g.job.interval;
          same = rw m.file (sym (same ∙ kept));
          clean = clean;
        }

  pub pair-IsSaved :
      (limit : ℤ) (has_db : Bool) (g : Goroutine B) (p : Pairing B) (e : Entry)
      → IsFaithful json
      → IsUsual p.disk g
      → (let q =
            (bootstrap_pair json g.env limit has_db base g.job.file_symbol g.job.wire g.job.interval
              p).0 in
          lookup (key g) q.store.entries ≡ some e → IsSaved g q.disk e)
  pair-IsSaved limit has_db g p e faithful usual found =
      elim (bootstrap_pair_result json g.env limit has_db base g.job.file_symbol g.job.wire
        g.job.interval p) [
          | inl (candles, done, m) ↦
              merged-IsSaved limit has_db g p _ e faithful usual found candles m
          | inr (error, done, m) ↦ kept-IsSaved limit has_db g p _ e faithful usual found m
        ]
