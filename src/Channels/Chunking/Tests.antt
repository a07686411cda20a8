-- ===== src/Channels/Chunking/Tests.antt =====
-- packages/channels/src/chunking.ts on small messages.
use cere_worker.Prelude.{Text, codes, [], ◌∷◌, ◌≡◌, refl, All, map, length, arith}
use cere_worker.Channels.Chunking.{hard_split, split_paragraphs, track_fences, chunk_markdown}
use cere_worker.Channels.Chunking.Hard.{concat, Fits, hard_split-concat}
use cere_worker.Channels.Chunking.Limit.{Within, chunk_markdown-Within}

hard_split-concat_example :
    (concat (hard_split (codes "abcdefg") 3) ≡ codes "abcdefg")
    × All (Fits 3) (hard_split (codes "abcdefg") 3)
hard_split-concat_example = hard_split-concat (codes "abcdefg") 3 (omega arith)

abbrev two_paragraphs : Text
two_paragraphs = codes "abc\n\n\ndef"

chunk_markdown-Within_example : All (Within 4) (chunk_markdown two_paragraphs 4)
unfolding split_paragraphs track_fences
chunk_markdown-Within_example =
    chunk_markdown-Within two_paragraphs 4 ((omega arith, refl), ((omega arith, refl), tt))

two_paragraphs-chunks : chunk_markdown two_paragraphs 4 ≡ codes "abc" ∷ codes "def" ∷ []
unfolding chunk_markdown
two_paragraphs-chunks = refl

-- A paragraph that comes after another one is not cut, however long it is.
long_paragraph-chunks :
    chunk_markdown (codes "ab\n\nabcdefghi") 4 ≡ codes "ab" ∷ codes "abcdefghi" ∷ []
unfolding chunk_markdown
long_paragraph-chunks = refl

-- The lines that close a fence and open it again are not counted: a chunk of more than 12.
fenced-chunks : map length (chunk_markdown (codes "```\nabcdef\n\nghijkl\n```") 12) ≡ 14 ∷ 14 ∷ []
unfolding chunk_markdown
fenced-chunks = refl
