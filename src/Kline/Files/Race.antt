-- ===== src/Kline/Files/Race.antt =====
-- An upsert that comes between GetDirty and ClearDirty of one flush.
use mathlib.Core.Option
use fidorix.Base.{
  ℕ, ◌≡◌, ap, ◌∙◌, true, some, arith, text_eq_iff, Bool, ◌&&◌, Text, ok, Codec, Disk, lookup,
  lookup-insert_self, lookup-Each,
}
use fidorix.Kline.Candle.{Candle}
use fidorix.Kline.Store.{
  CandleFile, Entry, Store, key_for, clone_entry, clean, entry_or_new, with_candle, upsert,
}
use fidorix.Kline.Store.Invariant.{IsValid, IsValidEntry}
use fidorix.Kline.Files.{SaveEnv, stamped, file_path_for_entry, Flushing, flush_entry}
use fidorix.Kline.Files.Flush.{settled, is_saved, lookup-flush_entry}
use fidorix.Kline.Files.Written.{disk-flush_entry}

lookup-upsert :
    (s : Store) (symbol interval : Text) (c : Candle) (e : Entry)
    → lookup (key_for symbol interval) s.entries ≡ some e
    → lookup (key_for symbol interval) (upsert s symbol interval c).0.entries
      ≡ some (with_candle e symbol interval c)
unfolding upsert
lookup-upsert s symbol interval c e found =
    rw (lookup-insert_self (key_for symbol interval) _ s.entries) (
      ap
        (λ o. some (
          with_candle (entry_or_new (key_for symbol interval) symbol interval o) symbol interval c))
        found)

-- A flush has copied the entry `e` of a pair, and before it clears the mark the pair gets a candle:
-- behind the flush the store has the candle under a clean entry, and the file that was written is
-- that of the copy, without it. No later flush writes the candle until another one comes.
pub flush_entry_race :
    {B : Type 0} (json : Codec CandleFile B) (base : Text) (env : SaveEnv B) (s : Store)
    (disk : Disk B) (n : ℕ) (symbol interval : Text) (c : Candle) (e : Entry) (p : Text)
    → IsValid s
    → lookup (key_for symbol interval) s.entries ≡ some e
    → file_path_for_entry base (clone_entry e) ≡ ok p
    → is_saved json base env (clone_entry e) ≡ true
    → let f : Flushing B =
        flush_entry json base env
          (clone_entry e)
          (record { store = (upsert s symbol interval c).0; disk = disk; flushed = n }) in
      (lookup (key_for symbol interval) f.store.entries
        ≡ some (clean (with_candle e symbol interval c)))
      × (f.disk p ≡ json.encode (stamped env.now (clone_entry e).file))
flush_entry_race {B} json base env s disk n symbol interval c e p h found path saved =
    let k = key_for symbol interval in
    let g : Flushing B = record {
      store = (upsert s symbol interval c).0;
      disk = disk;
      flushed = n;
    } in
    let same : (clone_entry e).key ≡ k =
      unfold clone_entry in (lookup-Each IsValidEntry k e s.entries h.each found).keyed in
    (
      lookup-flush_entry json base env (clone_entry e) g k
          ∙ ap (λ b. Option.map (settled b) (lookup k g.store.entries))
              (both _ _ ((text_eq_iff (clone_entry e).key k).1 same) saved)
          ∙ ap (Option.map (settled true)) (lookup-upsert s symbol interval c e found),
      disk-flush_entry json base env (clone_entry e) g p path saved,
    )
  where
    both : (a b : Bool) → a ≡ true → b ≡ true → (a && b) ≡ true
    both a b h k = ground arith
