-- ===== src/Plan/Merge.antt =====
-- mergeChunks of internal/migration/plan.go: fewer ROWID chunks, each from adjacent ones.
use native.Mathlib.Nat.{div-add-mod', mod-lt}
use existora2pg.Prelude.{
  ◌<◌, ℕ, zero, suc, ◌+◌, ◌-◌, ◌*◌, ◌/◌, ◌%◌, ◌≤◌, ◌≡◌, refl, ◌∙◌, ap, ◌||◌, List, [], ◌∷◌, ◌++◌,
  arith, ltb, leb, ◌==◌, if◌then◌else◌, All, length, take, drop, take-append-drop, length-take,
  length-drop,
}
use existora2pg.Chunker.{RowIdChunk, hash_chunk}

-- `group[0]` and `group[len(group)-1]`; a group is never empty, so the default is never taken.
abbrev pub first_of : RowIdChunk → List RowIdChunk → RowIdChunk
first_of d [] = d
first_of d (c ∷ cs) = c

abbrev pub last_of : RowIdChunk → List RowIdChunk → RowIdChunk
last_of d [] = d
last_of d (c ∷ cs) = last_of c cs

unfoldable pub merged : ℕ → List RowIdChunk → RowIdChunk
merged i group =
    let first = first_of (hash_chunk i) group in
    record {
      id = i;
      start_rid = first.start_rid;
      end_rid = (last_of (hash_chunk i) group).end_rid;
      partition_name = first.partition_name;
    }

-- `size := perGroup; if i < extra { size++ }`
abbrev group_size : ℕ → ℕ → ℕ → ℕ
group_size per extra i = if ltb i extra then per + 1 else per

-- The groups `chunks[pos : pos+size]` for i, i + 1, …, `left` of them.
unfoldable pub groups : ℕ → ℕ → ℕ → ℕ → List RowIdChunk → List (List RowIdChunk)
groups per extra i zero rest = []
groups per extra i (suc left) rest =
    let size = group_size per extra i in
    take size rest ∷ groups per extra (suc i) left (drop size rest)

-- The merged chunks, numbered from i.
unfoldable pub merge_all : ℕ → List (List RowIdChunk) → List RowIdChunk
unfolding merged
merge_all i [] = []
merge_all i (g ∷ gs) = merged i g ∷ merge_all (suc i) gs

unfoldable pub groups_of : List RowIdChunk → ℕ → List (List RowIdChunk)
unfolding groups
groups_of chunks target_n =
    groups (length chunks / target_n) (length chunks % target_n) 0 target_n chunks

-- mergeChunks
unfoldable pub merge_chunks : List RowIdChunk → ℕ → List RowIdChunk
merge_chunks chunks target_n =
    if leb (length chunks) target_n || target_n == 0
    then chunks
    else merge_all 0 (groups_of chunks target_n)

-- The groups one after the other.
abbrev pub concat : List (List RowIdChunk) → List RowIdChunk
concat [] = []
concat (g ∷ gs) = g ++ concat gs

-- A group is not empty, and no group is two chunks larger than another.
abbrev pub IsEven : ℕ → List RowIdChunk → Type 0
IsEven per g = (per ≤ length g) × (length g ≤ per + 1)

-- What is still to be shared out over the groups i, i + 1, …
abbrev share : ℕ → ℕ → ℕ → ℕ → ℕ
share per extra i left = left * per + (if ltb extra (i + left) then extra - i else left)

share_step :
    (per extra i left : ℕ)
    → share per extra i (suc left) ≡ group_size per extra i + share per extra (suc i) left
share_step per extra i left = ground arith

concat-groups :
    (per extra i left : ℕ) (rest : List RowIdChunk)
    → length rest ≡ share per extra i left
    → concat (groups per extra i left rest) ≡ rest
unfolding groups
concat-groups per extra i zero [] h = refl
concat-groups per extra i zero (c ∷ rest) h = absurd (ground arith)
concat-groups per extra i (suc left) rest h =
    let size = group_size per extra i in
    ap (λ r. take size rest ++ r)
      (concat-groups per extra (suc i) left (drop size rest)
        (omega (arith, length-drop size rest, share_step per extra i left)))
    ∙ take-append-drop size rest

groups-IsEven :
    (per extra i left : ℕ) (rest : List RowIdChunk)
    → length rest ≡ share per extra i left
    → All (IsEven per) (groups per extra i left rest)
unfolding groups
groups-IsEven per extra i zero rest h = tt
groups-IsEven per extra i (suc left) rest h =
    let size = group_size per extra i in
    (
      ground (arith, length-take size rest, share_step per extra i left),
      groups-IsEven per extra (suc i) left (drop size rest)
          (omega (arith, length-drop size rest, share_step per extra i left)),
    )

length-groups :
    (per extra i left : ℕ) (rest : List RowIdChunk) → length (groups per extra i left rest) ≡ left
unfolding groups
length-groups per extra i zero rest = refl
length-groups per extra i (suc left) rest =
    ap suc (length-groups per extra (suc i) left (drop (group_size per extra i) rest))

div-share : (n k : ℕ) → 1 ≤ k → n ≡ share (n / k) (n % k) 0 k
div-share n k h = ground (arith, div-add-mod' n k, mod-lt n h)

length-merge_all : (i : ℕ) (gs : List (List RowIdChunk)) → length (merge_all i gs) ≡ length gs
unfolding merge_all
length-merge_all i [] = refl
length-merge_all i (g ∷ gs) = ap suc (length-merge_all (suc i) gs)

quotient_pos : (n k : ℕ) → 1 ≤ k → k < n → 1 ≤ n / k
quotient_pos n k h p = grind arith

-- `parts` cuts `chunks` into the groups that `result` is merged from.
pub record IsMergeOf (chunks : List RowIdChunk) (n : ℕ) (result : List RowIdChunk) : Type 0 where
  pub parts : List (List RowIdChunk)
  pub whole : concat parts ≡ chunks
  pub even : All (IsEven (length chunks / n)) parts
  pub from_parts : result ≡ merge_all 0 parts
  pub counted : length result ≡ n

-- Where there are more chunks than wanted, merging gives exactly the wanted number. They come from
-- consecutive groups that together are the given chunks, none empty and no two sizes further apart
-- than one.
pub merge_chunks-IsMergeOf :
    (chunks : List RowIdChunk) (n : ℕ)
    → 1 ≤ n
    → n < length chunks
    → (1 ≤ length chunks / n) × IsMergeOf chunks n (merge_chunks chunks n)
unfolding merge_chunks groups_of
merge_chunks-IsMergeOf chunks n some_wanted many =
    let size = length chunks / n in
    let extra = length chunks % n in
    let parts = groups size extra 0 n chunks in
    let shared = div-share (length chunks) n some_wanted in
    let merges : merge_chunks chunks n ≡ merge_all 0 parts = ground arith in
    (
      quotient_pos (length chunks) n some_wanted many,
      record {
        parts = parts;
        whole = concat-groups size extra 0 n chunks shared;
        even = groups-IsEven size extra 0 n chunks shared;
        from_parts = merges;
        counted = ap length merges ∙ length-merge_all 0 parts ∙ length-groups size extra 0 n chunks;
      },
    )
