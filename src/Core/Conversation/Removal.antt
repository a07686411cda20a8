-- ===== src/Core/Conversation/Removal.antt =====
-- packages/core/src/conversation.ts: the files that `pruneTurnJournals` removes are those that it does
-- not retain, and its counts are theirs.
use cere_worker.Prelude.{
  ℕ, ◌+◌, Text, text_eq_iff, text_eq_refl, leb, ltb, Bool, true, not, ◌&&◌, List, [], ◌∷◌, ◌≡◌,
  refl, ap, sym, filter, any, length, All, filter-id, arith, Bool-cases, inl, inr, ◌∙◌, Memᴰ,
  any-mem, filter-mem, mem-filter, any-witness,
}
use cere_worker.Core.Conversation.Journals.{
  TurnJournalRetentionPolicy, names_to_keep, is_named, is_same_file, prune_by_count, prune_by_age,
  cutoff_of, expired_files, overflow_files, remove_files, pruned_files, files_left, report_of,
}
use cere_worker.Core.Conversation.Retention.{distinct_names, File, same-name}
use cere_worker.Core.Conversation.Distinct.{young-distinct_names}

module _ {J : Type 0} where
  -- Of different names, a filter has the name of a file exactly if it has the file.
  any-filter_same :
      (p : File J → Bool) (files : List (File J)) (f : File J)
      → distinct_names files ≡ true
      → Memᴰ f files
      → any (λ r. is_same_file r f) (filter p files) ≡ p f
  any-filter_same p files f h m = elim (Bool-cases (any (λ r. is_same_file r f) (filter p files))) [
    | inl t ↦
        let (r, among, same) = any-witness (λ r. is_same_file r f) (filter p files) t in
        let (in_files, good) = filter-mem p files r among in
        let itself : r ≡ f = same-name files r f h in_files m ((text_eq_iff r.0 f.0).0 same) in
        t ∙ sym (rw itself at good)
    | inr none_there ↦ elim (Bool-cases (p f)) [
      | inl t ↦
          let there : any (λ r. is_same_file r f) (filter p files) ≡ true =
            any-mem (λ r. is_same_file r f) (filter p files) f (mem-filter p files f m t)
              (text_eq_refl f.0) in
          cc
      | inr t ↦ none_there ∙ sym t
    ]
  ]

  filter-ext_mem :
      (p q : File J → Bool) (files : List (File J))
      → ((f : File J) → Memᴰ f files → p f ≡ q f)
      → filter p files ≡ filter q files
  unfolding filter
  filter-ext_mem p q [] h = refl
  filter-ext_mem p q (f ∷ files) h =
      let here = h f (Memᴰ.head refl) in
      rw (here, filter-ext_mem p q files (λ g m. h g (Memᴰ.tail m))) refl

  -- To remove what one test picks is to retain what its opposite does.
  remove_files-filter :
      (p q : File J → Bool) (files : List (File J))
      → distinct_names files ≡ true
      → ((f : File J) → not (p f) ≡ q f)
      → remove_files (filter p files) files ≡ filter q files
  unfolding remove_files
  remove_files-filter p q files h opposite =
      filter-ext_mem _ q files (λ f m. ap not (any-filter_same p files f h m) ∙ opposite f)

  remove_files-nil : (files : List (File J)) → remove_files [] files ≡ files
  unfolding remove_files any
  remove_files-nil files = filter-id _ files (all files)
    where
      all : (xs : List (File J)) → All (λ f. not (any (λ r. is_same_file r f) []) ≡ true) xs
      all [] = tt
      all (x ∷ xs) = (refl, all xs)

  length-filter-opposite :
      (p q : File J → Bool) (files : List (File J))
      → ((f : File J) → not (p f) ≡ q f)
      → length (filter p files) + length (filter q files) ≡ length files
  unfolding filter
  length-filter-opposite p q [] opposite = omega arith
  length-filter-opposite p q (f ∷ files) opposite =
      ground (arith, opposite f, length-filter-opposite p q files opposite)

  -- Each of the two steps: what it removes and what it retains.
  abbrev Splits : List (File J) → List (File J) → List (File J) → Type 0
  Splits files removed retained =
      (remove_files removed files ≡ retained) × (length removed + length retained ≡ length files)

  by_age-Splits :
      (now days : ℕ) (files : List (File J))
      → distinct_names files ≡ true
      → Splits files (expired_files now days files) (prune_by_age now days files)
  unfolding expired_files prune_by_age
  by_age-Splits now days files h =
      let cutoff = cutoff_of now days in
      let old = λ (f : File J). ltb f.1.mtime_ms cutoff in
      let young = λ (f : File J). leb cutoff f.1.mtime_ms in
      let opposite : (f : File J) → not (old f) ≡ young f = λ f. ground arith in
      elim (Bool-cases (ltb 0 days)) [
        | inl t ↦ rw t (
          remove_files-filter old young files h opposite,
          length-filter-opposite old young files opposite,
        )
        | inr t ↦ rw t (remove_files-nil files, omega arith)
      ]

  by_count-Splits :
      (goes_behind : Text → Text → Bool) (n : ℕ) (files : List (File J))
      → distinct_names files ≡ true
      → Splits files (overflow_files goes_behind n files) (prune_by_count goes_behind n files)
  unfolding overflow_files prune_by_count
  by_count-Splits g n files h =
      let keep = is_named (names_to_keep g n files) in
      let drop = λ (f : File J). not (keep f) in
      let opposite : (f : File J) → not (drop f) ≡ keep f = λ f. ground arith in
      elim (Bool-cases (ltb 0 n && ltb n (length files))) [
        | inl t ↦ rw t (
          remove_files-filter drop keep files h opposite,
          length-filter-opposite drop keep files opposite,
        )
        | inr t ↦ rw t (remove_files-nil files, omega arith)
      ]

  pub files_left-pruned :
      (goes_behind : Text → Text → Bool) (now : ℕ) (policy : TurnJournalRetentionPolicy)
      (files : List (File J))
      → distinct_names files ≡ true
      → files_left goes_behind now policy files ≡ pruned_files goes_behind now policy files
  files_left-pruned g now policy files h =
      let (young, _) = by_age-Splits now policy.max_days files h in
      let distinct = young-distinct_names now policy.max_days files h in
      rw young (by_count-Splits g policy.max_files_per_conversation _ distinct).0

  pub report-adds_up :
      (goes_behind : Text → Text → Bool) (now : ℕ) (policy : TurnJournalRetentionPolicy)
      (files : List (File J))
      → distinct_names files ≡ true
      → let report = report_of goes_behind now policy files in
        report.pruned_by_age + report.pruned_by_count + report.remaining ≡ length files
  report-adds_up g now policy files h =
      let distinct = young-distinct_names now policy.max_days files h in
      let n = policy.max_files_per_conversation in
      omega (
        arith,
        (by_age-Splits now policy.max_days files h).1,
        (by_count-Splits g n (prune_by_age now policy.max_days files) distinct).1,
      )
