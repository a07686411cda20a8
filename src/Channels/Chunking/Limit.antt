-- ===== src/Channels/Chunking/Limit.antt =====
-- packages/channels/src/chunking.ts: when the chunks of `chunkMarkdown` keep to the limit.
use cere_worker.Prelude.{
  ℕ, ◌≤◌, Text, codes, leb, true, not, List, [], ◌∷◌, ◌≡◌, refl, All, All-append, All-filter,
  length, arith, Bool-cases, inl, inr, leb→le,
}
use cere_worker.Channels.Chunking.{
  Gathered, is_empty, separated, split_paragraphs, track_fences, finish, add_paragraph,
  add_paragraphs, chunk_markdown,
}

-- A paragraph that keeps to the limit and closes each fence that it opens.
abbrev pub IsPlain : ℕ → Text → Type 0
IsPlain limit para = (length para ≤ limit) × (track_fences para [] ≡ [])

abbrev pub Within : ℕ → Text → Type 0
Within limit chunk = length chunk ≤ limit

abbrev IsWithin : ℕ → Gathered → Type 0
IsWithin limit g = All (Within limit) g.done × (length g.current ≤ limit) × (g.fence ≡ [])

separated_lem :
    (limit : ℕ) (current para : Text)
    → length para ≤ limit
    → is_empty current ≡ true
    → leb (length (separated (codes "\n\n") current para)) limit ≡ true
separated_lem limit [] para fits e = ground (arith, fits)
separated_lem limit (c ∷ s) para fits e = absurd cc

add_paragraph-IsWithin :
    (limit : ℕ) (para : Text) (g : Gathered)
    → IsPlain limit para
    → IsWithin limit g
    → IsWithin limit (add_paragraph limit para g)
unfolding add_paragraph
add_paragraph-IsWithin limit para g (fits, closed) (done, current, none_open) =
    elim (Bool-cases (leb (length (separated (codes "\n\n") g.current para)) limit)) [
      | inl t ↦
          let small = leb→le (length (separated (codes "\n\n") g.current para)) limit t in
          rw (t, none_open, closed) (done, small, refl)
      | inr t ↦ elim (Bool-cases (is_empty g.current)) [
        | inl e ↦
            let small = separated_lem limit g.current para fits e in
            absurd (ground (arith, t, small))
        | inr e ↦
            rw (t, e, none_open, closed)
              (All-append (Within limit) g.done (g.current ∷ []) done (current, tt), fits, refl)
      ]
    ]

add_paragraphs-IsWithin :
    (limit : ℕ) (paras : List Text) (g : Gathered)
    → All (IsPlain limit) paras
    → IsWithin limit g
    → IsWithin limit (add_paragraphs limit paras g)
unfolding add_paragraphs
add_paragraphs-IsWithin limit [] g plain h = h
add_paragraphs-IsWithin limit (para ∷ paras) g (p, plain) h =
    add_paragraphs-IsWithin limit paras (add_paragraph limit para g) plain
      (add_paragraph-IsWithin limit para g p h)

finish-Within : (limit : ℕ) (g : Gathered) → IsWithin limit g → All (Within limit) (finish g)
finish-Within limit g (done, current, none_open) = elim (Bool-cases (is_empty g.current)) [
  | inl e ↦ rw e (All-append (Within limit) g.done [] done tt)
  | inr e ↦ rw e (All-append (Within limit) g.done (g.current ∷ []) done (current, tt))
]

-- Where each paragraph of a message keeps to the limit and closes the fences that it opens, so
-- does each chunk keep to the limit.
pub chunk_markdown-Within :
    (text : Text) (limit : ℕ)
    → All (IsPlain limit) (split_paragraphs text)
    → All (Within limit) (chunk_markdown text limit)
unfolding chunk_markdown
chunk_markdown-Within text limit plain = elim (Bool-cases (leb (length text) limit)) [
  | inl t ↦ rw t (leb→le (length text) limit t, tt)
  | inr t ↦
      let start : Gathered = record { done = []; current = []; fence = [] } in
      let gathered =
        add_paragraphs-IsWithin limit (split_paragraphs text) start plain (tt, omega arith, refl) in
      rw t (All-filter (Within limit) (λ c. not (is_empty c)) _ (finish-Within limit _ gathered))
]
