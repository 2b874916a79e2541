-- ===== src/Wal/Cleanup.antt =====
-- `Cleanup` of wal.go on an undamaged log: what it leaves on every path through the function.
use digital_square.Base.{
  ℕ, suc, ◌+◌, String, ◌<>◌, ◌==◌, ◌≡◌, ◌⊎◌, inl, inr, refl, ap, ◌∙◌, false, none, some, List, [],
  ◌∷◌, All, All-keep, arith, eq_refl, eq_iff, len, Bool-cases, Option-cases, not,
}
use text.Mathlib.TextLemmas
use text.Mathlib.TextLemmas.{append-nil, nil-append}
use text.Mathlib.TextPositions.{len-append}
use digital_square.Codec.{Codec}
use digital_square.Errors.{ok}
use digital_square.Wal.{
  WalEntry, Wal, Disk, Stop, CleanupFaults, encode, cleanup, remaining, contains, temp_path,
  write_temp, append, update, synced_at,
}
use digital_square.Wal.Contents.{
  IsStorable, Stores, Survives, Holds, render, get_all_entries_cases, get_all_entries-Stores,
  no_read_faults,
}

pub temp_path-ne : (w : Wal) → (w.file_path == temp_path w) ≡ false
temp_path-ne w = elim (Bool-cases (w.file_path == temp_path w)) [
  | inr e ↦ e
  | inl e ↦
      let same = (eq_iff _ _).0 e in
      let longer : len (temp_path w) ≡ len w.file_path + 4 = len-append w.file_path ".tmp" in
      let equal : len w.file_path ≡ len (temp_path w) = ap len same in absurd (omega arith)
]

pub temp_path-ne_sym : (w : Wal) → (temp_path w == w.file_path) ≡ false
temp_path-ne_sym w =
    ground
      (arith, temp_path-ne w, eq_iff (temp_path w) w.file_path, eq_iff w.file_path (temp_path w))

module _ (c : Codec WalEntry) (path : String) where
  -- Without short writes the temporary file receives the entries as lines.
  write_temp-at :
      (stops : ℕ → Stop) (entries : List WalEntry) (disk : Disk) (text : String)
      → ((i : ℕ) → stops i ≡ none)
      → disk path ≡ some text
      → write_temp c stops path entries disk path ≡ some (text <> render c entries)
  unfolding write_temp append render
  write_temp-at stops [] disk text full h = rw append-nil h
  write_temp-at stops (e ∷ entries) disk text full h =
      write_temp-at (λ i. stops (suc i)) entries _ (text <> (encode c e <> "\n"))
        (λ i. full (suc i)) (ground (arith, full 0, eq_refl path, h))
      ∙ ap some (simp TextLemmas.append_assoc)

  write_temp-other :
      (stops : ℕ → Stop) (entries : List WalEntry) (disk : Disk) (p : String)
      → (p == path) ≡ false
      → write_temp c stops path entries disk p ≡ disk p
  unfolding write_temp append
  write_temp-other stops [] disk p h = refl
  write_temp-other stops (e ∷ entries) disk p h =
      write_temp-other (λ i. stops (suc i)) entries _ p h ∙ ground (arith, h)

pub remaining-All :
    (P : WalEntry → Type 0) (ids : List String) (entries : List WalEntry)
    → All P entries
    → All P (remaining ids entries)
unfolding remaining
remaining-All P ids entries h = All-keep P (λ e. not (contains ids e.message_id)) entries h

module _ (c : Codec WalEntry) (w : Wal) (f : CleanupFaults) (ids : List String)
    (entries : List WalEntry) (h : Stores c w entries) (full : (i : ℕ) → f.on_temp i ≡ none) where
  -- The disk when the temporary file has been written.
  abbrev copied : Disk
  copied =
      write_temp c f.on_temp (temp_path w) (remaining ids entries)
        (update w.disk (temp_path w) (some ""))

  copied_temp : copied (temp_path w) ≡ some (render c (remaining ids entries))
  copied_temp =
      write_temp-at c (temp_path w) f.on_temp (remaining ids entries) _ "" full
        (ground (arith, eq_refl (temp_path w)))
      ∙ rw nil-append

  copied_log : copied w.file_path ≡ some (render c entries)
  copied_log =
      write_temp-other c (temp_path w) f.on_temp (remaining ids entries) _ w.file_path
        (temp_path-ne w)
      ∙ ground (arith, temp_path-ne w, h.text)

  -- When no line of the temporary file is cut short, a cleanup of an undamaged log that succeeds
  -- leaves an open log of the entries that were not persisted, in order.
  pub cleanup-Holds :
      (cleanup c f ids w).0 ≡ ok tt → Holds c (cleanup c f ids w).1 (remaining ids entries)
  unfolding cleanup
  cleanup-Holds done = elim (get_all_entries_cases c w entries h f.reading) [
    | inr (e, failed) ↦ ground (arith, failed)
    | inl found ↦ record {
      opened = ground (arith, found);
      stores = record {
        text =
            ground
              (arith, found, copied_temp, temp_path-ne w, temp_path-ne_sym w, eq_refl w.file_path);
        storable = remaining-All (IsStorable c) ids entries h.storable;
      };
    }
  ]

  file_path-cleanup : (cleanup c f ids w).1.file_path ≡ w.file_path
  unfolding cleanup
  file_path-cleanup = elim (get_all_entries_cases c w entries h f.reading) [
    | inr (e, failed) ↦ ground (arith, failed)
    | inl found ↦ ground (arith, found)
  ]

  -- When no line of the temporary file is cut short, then on every path through a cleanup of an
  -- undamaged log, errors included, the file at the log's path holds all of the old log or all
  -- that is not persisted of it.
  pub cleanup_atomic :
      let w' = (cleanup c f ids w).1 in
      (w'.disk w'.file_path ≡ some (render c entries))
      ⊎ (w'.disk w'.file_path ≡ some (render c (remaining ids entries)))
  unfolding cleanup
  cleanup_atomic = elim (get_all_entries_cases c w entries h f.reading) [
    | inr (e, failed) ↦ inl (ground (arith, failed, h.text))
    | inl found ↦ elim (Option-cases f.on_rename) [
      | inl moved ↦ ground (
        arith,
        found,
        h.text,
        copied_temp,
        temp_path-ne w,
        temp_path-ne_sym w,
        eq_refl w.file_path,
      )
      | inr (e, kept) ↦ ground (arith, found, h.text, copied_log, temp_path-ne w)
    ]
  ]

  -- So the log stores all the old entries or all that remain.
  cleanup-Stores :
      Stores c (cleanup c f ids w).1 entries
      ⊎ Stores c (cleanup c f ids w).1 (remaining ids entries)
  cleanup-Stores = elim cleanup_atomic [
    | inl old ↦ inl (record { text = old; storable = h.storable })
    | inr new ↦
        inr (record { text = new; storable = remaining-All (IsStorable c) ids entries h.storable })
  ]

  -- Where the temporary file can be synced, what is synced of the log follows what it stores.
  cleanup_synced :
      let w' = (cleanup c f ids w).1 in
      f.on_temp_sync ≡ none
      → ((w'.disk w'.file_path ≡ some (render c entries))
          × (w'.synced w'.file_path ≡ w.synced w.file_path))
        ⊎ ((w'.disk w'.file_path ≡ some (render c (remaining ids entries)))
            × (w'.synced w'.file_path ≡ some (render c (remaining ids entries))))
  unfolding cleanup synced_at
  cleanup_synced works = elim (get_all_entries_cases c w entries h f.reading) [
    | inr (e, failed) ↦ inl (ground (arith, failed, h.text), ground (arith, failed))
    | inl found ↦ elim (Option-cases f.on_rename) [
      | inl moved ↦ ground (
        arith,
        found,
        works,
        h.text,
        copied_temp,
        temp_path-ne w,
        temp_path-ne_sym w,
        eq_refl w.file_path,
        eq_refl (temp_path w),
      )
      | inr (e, kept) ↦ inl (
        ground (arith, found, works, h.text, copied_log, temp_path-ne w),
        ground (arith, found, works, temp_path-ne w),
      )
    ]
  ]

  -- So the log stores all the old entries, and nothing has been synced of it, or it stores all that
  -- remain, and these are synced.
  pub cleanup-Survives :
      let w' = (cleanup c f ids w).1 in
      f.on_temp_sync ≡ none
      → (Stores c w' entries × (w'.synced w'.file_path ≡ w.synced w.file_path))
        ⊎ (Stores c w' (remaining ids entries) × Survives c w' (remaining ids entries))
  cleanup-Survives works = elim (cleanup_synced works) [
    | inl (old, same) ↦ inl (record { text = old; storable = h.storable }, same)
    | inr (new, safe) ↦
        let storable = remaining-All (IsStorable c) ids entries h.storable in
        inr
          (record { text = new; storable = storable }, record { text = safe; storable = storable })
  ]

abbrev pub no_cleanup_faults : CleanupFaults
no_cleanup_faults = record {
  reading = no_read_faults;
  on_close = none;
  on_create = none;
  on_temp = λ i. none;
  on_temp_sync = none;
  on_rename = none;
  on_reopen = none;
}

module _ (c : Codec WalEntry) where
  -- Without faults a cleanup of an open log succeeds.
  pub cleanup_works :
      (w : Wal) (ids : List String) (entries : List WalEntry)
      → Holds c w entries
      → (cleanup c no_cleanup_faults ids w).0 ≡ ok tt
  unfolding cleanup
  cleanup_works w ids entries h =
      ground (arith, get_all_entries-Stores c w entries h.stores, h.opened)
