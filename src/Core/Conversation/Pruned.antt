-- ===== src/Core/Conversation/Pruned.antt =====
-- packages/core/src/conversation.ts: what `pruneTurnJournals` leaves of a conversation's journals.
use cere_worker.Prelude.{
  ℕ, zero, suc, ◌+◌, ◌≤◌, ◌<◌, Text, text_eq, text_eq_iff, text_eq_refl, leb, leb→le, ltb, lt→ltb,
  Bool, true, false, ◌&&◌, List, [], ◌∷◌, ◌≡◌, refl, ap, sym, any, length, take, count_if,
  length-filter, length-take, All, All-imp, filter-All, All-filter, arith, Bool-cases, inl, inr,
  ◌⊎◌, ◌∙◌, Memᴰ, any-mem, filter-mem, mem-filter, count_if-or, count_if-none, mem-take-or-drop,
  take-mem, length-map, map-mem, mem-map, any-witness, Option, none, some, map_get, map_get-map_set,
}
use cere_worker.Core.Conversation.{done}
use cere_worker.Core.Conversation.Files.{Dir, Disk, ConversationMeta}
use cere_worker.Core.Conversation.Distinct.{young-distinct_names}
use cere_worker.Core.Conversation.Removal.{files_left-pruned, report-adds_up}
use cere_worker.Core.Conversation.Journals.{
  TurnJournalRetentionPolicy, PruneReport, sort_files, names_to_keep, is_named, prune_by_count,
  prune_by_age, cutoff_of, pruned_files, report_of, prune_turn_journals,
}
use cere_worker.Core.Conversation.Retention.{
  distinct_names, File, taken-newer, sort-NewestFirst, sort-mem, mem-sort, count-named, same-name,
}

module _ {J : Type 0} where
  count-names :
      (names : List Text) (files : List (File J))
      → distinct_names files ≡ true
      → count_if (is_named names) files ≤ length names
  unfolding any
  count-names [] files h = omega (arith, count_if-none (is_named []) files (none-named files))
    where
      none-named : (xs : List (File J)) → any (λ x. false) xs ≡ false
      none-named [] = refl
      none-named (x ∷ xs) = none-named xs
  count-names (k ∷ ks) files h = omega (
    arith,
    count_if-or (λ f. text_eq k f.0) (is_named ks) files,
    count-named k files h,
    count-names ks files h,
  )

  prune_by_count-le :
      (goes_behind : Text → Text → Bool) (n : ℕ) (files : List (File J))
      → distinct_names files ≡ true
      → 0 < n
      → length (prune_by_count goes_behind n files) ≤ n
  unfolding prune_by_count names_to_keep
  prune_by_count-le g n files h pos = elim (Bool-cases (ltb n (length files))) [
    | inl t ↦
        let names = names_to_keep g n files in
        let few : length names ≤ n = omega (
          arith,
          length-map (λ f. f.0) (take n (sort_files g [] files)),
          length-take n (sort_files g [] files),
        ) in
        rw (lt→ltb 0 n pos, t)
          (omega (arith, few, length-filter (is_named names) files, count-names names files h))
    | inr t ↦ rw (lt→ltb 0 n pos, t) (ground (arith, t))
  ]

  prune_by_age-young :
      (now days : ℕ) (files : List (File J))
      → 0 < days
      → All (λ f. cutoff_of now days ≤ f.1.mtime_ms) (prune_by_age now days files)
  unfolding prune_by_age
  prune_by_age-young now days files pos = rw (lt→ltb 0 days pos) (
      All-imp (λ f. λ h. leb→le _ _ h) _
        (filter-All (λ f. leb (cutoff_of now days) f.1.mtime_ms) files))

  prune_by_count-All :
      (P : File J → Type 0) (goes_behind : Text → Text → Bool) (n : ℕ) (files : List (File J))
      → All P files
      → All P (prune_by_count goes_behind n files)
  unfolding prune_by_count
  prune_by_count-All P g n files h = elim (Bool-cases (ltb 0 n && ltb n (length files))) [
    | inl t ↦ rw t (All-filter P _ files h)
    | inr t ↦ rw t h
  ]

  -- The file that is kept is among the first of the sorted ones, and the other among the rest.
  cut-newer :
      (goes_behind : Text → Text → Bool) (n : ℕ) (files : List (File J)) (f g : File J)
      → distinct_names files ≡ true
      → Memᴰ f files
      → is_named (names_to_keep goes_behind n files) f ≡ true
      → Memᴰ g files
      → (is_named (names_to_keep goes_behind n files) g ≡ true) ⊎ (g.1.mtime_ms ≤ f.1.mtime_ms)
  unfolding names_to_keep
  cut-newer goes_behind n files f g h m is_kept k =
      let sorted = sort_files goes_behind [] files in
      let (i, among, same) = any-witness (λ i. text_eq i f.0) _ is_kept in
      let (f', first, is_f) = mem-map (λ (x : File J). x.0) (take n sorted) i among in
      let in_files : Memᴰ f' files = mem-sort goes_behind files f' (take-mem n sorted f' first) in
      let f≡f' : f ≡ f' =
        same-name files f f' h m in_files (sym ((text_eq_iff i f.0).0 same) ∙ is_f) in
      elim (mem-take-or-drop n sorted g (sort-mem goes_behind [] files g (inr k))) [
        | inl early ↦ inl (
            any-mem (λ i. text_eq i g.0) _ g.0 (map-mem (λ (x : File J). x.0) _ g early)
              (text_eq_refl g.0))
        | inr late ↦ inr (
            rw f≡f'
              (taken-newer n sorted f' g (sort-NewestFirst goes_behind [] files tt) first late))
      ]

  -- A file that is not kept is no newer than any that is.
  pub prune_by_count-newest :
      (goes_behind : Text → Text → Bool) (n : ℕ) (files : List (File J)) (f g : File J)
      → distinct_names files ≡ true
      → Memᴰ f (prune_by_count goes_behind n files)
      → Memᴰ g files
      → (Memᴰ g (prune_by_count goes_behind n files)) ⊎ (g.1.mtime_ms ≤ f.1.mtime_ms)
  unfolding prune_by_count
  prune_by_count-newest goes_behind n files f g h m k =
      elim (Bool-cases (ltb 0 n && ltb n (length files))) [
        | inl t ↦
            let names = names_to_keep goes_behind n files in
            let (in_files, is_kept) = filter-mem (is_named names) files f (rw t at m) in
            rw t (elim (cut-newer goes_behind n files f g h in_files is_kept k) [
              | inl kept ↦ inl (mem-filter (is_named names) files g k kept)
              | inr older ↦ inr older
            ])
        | inr t ↦ rw t (inl k)
      ]

zero_or_pos : (n : ℕ) → (n ≡ 0) ⊎ (0 < n)
zero_or_pos zero = inl refl
zero_or_pos (suc n) = inr (omega arith)

abbrev turns_of : {S J E : Type 0} → Option (Dir S J E) → List (File J)
turns_of none = []
turns_of (some dir) = dir.turns

module _ {S J E : Type 0} (goes_behind : Text → Text → Bool) where
  -- What the call does to a directory that is there.
  prune_turn_journals-found :
      (id : Text) (now : ℕ) (policy : TurnJournalRetentionPolicy) (disk : Disk S J E)
      (dir : Dir S J E) (meta : ConversationMeta)
      → map_get id disk ≡ some dir
      → dir.meta ≡ some meta
      → distinct_names dir.turns ≡ true
      → let called = prune_turn_journals goes_behind true id now policy disk in
        (called.1 ≡ done (report_of goes_behind now policy dir.turns))
        × (map_get id called.0
            ≡ some (record dir { turns = pruned_files goes_behind now policy dir.turns }))
  unfolding prune_turn_journals
  prune_turn_journals-found id now policy disk dir meta found has_meta distinct =
      rw (found, has_meta, files_left-pruned goes_behind now policy dir.turns distinct)
        (refl, map_get-map_set id id _ disk ∙ rw (text_eq_refl id) refl)

  -- If a conversation has a metadata file and its journals have different names, then after
  -- `pruneTurnJournals` got the lock, at most `maxFilesPerConversation` journals are left if that is
  -- not 0, none of them is older than `maxDays` days if that is not 0, and the numbers of the report
  -- add up to what there was, with the number of those left for `remaining`.
  pub prune_turn_journals-within :
      (id : Text) (now : ℕ) (policy : TurnJournalRetentionPolicy) (disk : Disk S J E)
      (dir : Dir S J E) (meta : ConversationMeta)
      → map_get id disk ≡ some dir
      → dir.meta ≡ some meta
      → distinct_names dir.turns ≡ true
      → let called = prune_turn_journals goes_behind true id now policy disk in
        (report : PruneReport) × (left : List (File J)) × (called.1 ≡ done report)
        × (map_get id called.0 ≡ some (record dir { turns = left }))
        × ((policy.max_files_per_conversation ≡ 0)
            ⊎ (length left ≤ policy.max_files_per_conversation))
        × ((policy.max_days ≡ 0) ⊎ All (λ f. cutoff_of now policy.max_days ≤ f.1.mtime_ms) left)
        × (report.remaining ≡ length left)
        × (report.pruned_by_age + report.pruned_by_count + report.remaining ≡ length dir.turns)
  prune_turn_journals-within id now policy disk dir meta found has_meta distinct =
      let young = prune_by_age now policy.max_days dir.turns in
      let called = prune_turn_journals-found id now policy disk dir meta found has_meta distinct in
      (
        report_of goes_behind now policy dir.turns,
        pruned_files goes_behind now policy dir.turns,
        called.0,
        called.1,
        elim (zero_or_pos policy.max_files_per_conversation) [
          | inl none_set ↦ inl none_set
          | inr limited ↦ inr (
              prune_by_count-le goes_behind _ young
                (young-distinct_names now policy.max_days dir.turns distinct) limited)
        ],
        elim (zero_or_pos policy.max_days) [
          | inl none_set ↦ inl none_set
          | inr limited ↦ inr (
              prune_by_count-All _ goes_behind _ young
                (prune_by_age-young now policy.max_days dir.turns limited))
        ],
        refl,
        report-adds_up goes_behind now policy dir.turns distinct,
      )

  -- If a conversation has a metadata file and its journals have different names, then a journal that
  -- `pruneTurnJournals` removes for their number, not for its age, is no newer than any that is left.
  pub prune_turn_journals-newest :
      (id : Text) (now : ℕ) (policy : TurnJournalRetentionPolicy) (disk : Disk S J E)
      (dir dir' : Dir S J E) (meta : ConversationMeta) (f g : File J)
      → map_get id disk ≡ some dir
      → dir.meta ≡ some meta
      → distinct_names dir.turns ≡ true
      → map_get id (prune_turn_journals goes_behind true id now policy disk).0 ≡ some dir'
      → Memᴰ f dir'.turns
      → Memᴰ g (prune_by_age now policy.max_days dir.turns)
      → (Memᴰ g dir'.turns) ⊎ (g.1.mtime_ms ≤ f.1.mtime_ms)
  prune_turn_journals-newest id now policy disk dir dir' meta f g found has_meta distinct after m
        k =
      let young = prune_by_age now policy.max_days dir.turns in
      let same : turns_of (some dir') ≡ pruned_files goes_behind now policy dir.turns =
        ap turns_of (
          sym after
          ∙ (prune_turn_journals-found id now policy disk dir meta found has_meta distinct).1) in
      let distinct' = young-distinct_names now policy.max_days dir.turns distinct in
      rw same (prune_by_count-newest goes_behind _ young f g distinct' (rw same at m) k)
