-- ===== src/Kline/Files/Saving.antt =====
-- SaveFile is atomic, reports what it did, and LoadFile reads back what it wrote.
use fidorix.Base.{
  ◌≡◌, ◌≢◌, refl, inl, inr, ◌⊎◌, true, none, arith, Option-cases, Bool-cases, Text, Codec,
  IsFaithful, Disk, tmp_path, replace_file_result, replace_file_frame, replace_file_local, ap,
}
use fidorix.Kline.Store.{CandleFile}
use fidorix.Kline.Files.{SaveEnv, stamped, replace_outcome, load_file, save_file}

module _ {B : Type 0} (json : Codec CandleFile B) (env : SaveEnv B) (path : Text) (cf : CandleFile)
    (disk : Disk B) where
  -- Either the file is the whole new one, stamped and with its candles not null, or SaveFile has
  -- returned an error and the file is as it was.
  pub save_file_result :
      (((save_file json env path cf disk).1 ≡ none)
        × ((save_file json env path cf disk).0 path ≡ json.encode (stamped env.now cf)))
      ⊎ (((save_file json env path cf disk).1 ≢ none)
          × ((save_file json env path cf disk).0 path ≡ disk path))
  unfolding save_file
  save_file_result = elim (Bool-cases env.makes_dir) [
    | inr b ↦ rw b (inr (cc, refl))
    | inl b ↦ rw b (elim (Option-cases (json.encode (stamped env.now cf))) [
      | inl e ↦ rw e (inr (cc, refl))
      | inr (payload, e) ↦ rw e (ground (arith, replace_file_result env.outcome path payload disk))
    ])
  ]

  -- No path but the file's and its temporary one changes.
  pub save_file_frame :
      (q : Text) → q ≢ path → q ≢ tmp_path path → (save_file json env path cf disk).0 q ≡ disk q
  unfolding save_file
  save_file_frame q ne nt = elim (Bool-cases env.makes_dir) [
    | inr b ↦ rw b
    | inl b ↦ rw b (elim (Option-cases (json.encode (stamped env.now cf))) [
      | inl e ↦ rw e
      | inr (payload, e) ↦ rw e (replace_file_frame env.outcome path payload disk q ne nt)
    ])
  ]

  -- It reports success only of what is encoded.
  pub save_file_encoded :
      (save_file json env path cf disk).1 ≡ none → json.encode (stamped env.now cf) ≢ none
  unfolding save_file
  save_file_encoded saved e = ground (arith, e)

  -- What SaveFile has written, LoadFile returns, stamped with the second of the save.
  pub load_file-save_file :
      IsFaithful json
      → (save_file json env path cf disk).1 ≡ none
      → load_file json true path (save_file json env path cf disk).0 ≡ (stamped env.now cf, none)
  unfolding load_file
  load_file-save_file faithful saved = elim save_file_result [
    | inr (failed, same) ↦ absurd (failed saved)
    | inl (done, written) ↦ elim (Option-cases (json.encode (stamped env.now cf))) [
      | inr (payload, e) ↦ rw (written, e, faithful (stamped env.now cf) payload e)
      | inl e ↦ absurd (save_file_encoded saved e)
    ]
  ]

-- How SaveFile ends, and what it leaves at its path, depends on the disk at that path only.
pub save_file_local :
    {B : Type 0} (json : Codec CandleFile B) (env : SaveEnv B) (path : Text) (cf : CandleFile)
    (d e : Disk B)
    → d path ≡ e path
    → ((save_file json env path cf d).1 ≡ (save_file json env path cf e).1)
      × ((save_file json env path cf d).0 path ≡ (save_file json env path cf e).0 path)
unfolding save_file
save_file_local json env path cf d e same = elim (Bool-cases env.makes_dir) [
  | inr b ↦ rw b (refl, same)
  | inl b ↦ rw b (elim (Option-cases (json.encode (stamped env.now cf))) [
    | inl n ↦ rw n (refl, same)
    | inr (payload, s) ↦ rw s (
        let local = replace_file_local env.outcome path payload d e same in
        (ap replace_outcome local.0, local.1))
  ])
]
