-- ===== src/Shards/Validate/Vote.antt =====
-- Which digests `validate_shards` trusts.
use race_slothy.Common.{
  ℕ, ◌+◌, ◌≡◌, refl, Bool-cases, inl, inr, List, [], ◌∷◌, Bytes, ltb, if◌then◌else◌, length,
}
use race_slothy.Shards.Validate.{
  Slot, missing, unopened, shard, Votes, cur_hash_ptr, count_key, last_bytes, collect, pick, elect,
  true_hash_val,
}

-- The digests at the end of the last file that is long enough to hold them; `before` if none is.
unfoldable pub last_table : ℕ → List Slot → Bytes → Bytes
last_table n [] before = before
last_table n (missing ∷ fds) before = last_table n fds before
last_table n (unopened name ∷ fds) before = last_table n fds before
last_table n (shard name file ∷ fds) before =
    last_table n fds (if ltb (length file) n then before else last_bytes n file)

abbrev OneKey : Votes → ℕ → Type 0
OneKey votes c = votes.items ≡ (cur_hash_ptr, c) ∷ []

-- Every file is counted under the one address, so there is one item at most.
elect_one :
    (n : ℕ) (fds : List Slot) (votes : Votes) (c : ℕ) (garbage : Bytes)
    → OneKey votes c
    → elect (collect n fds votes) garbage ≡ last_table n fds votes.cur_hash_val
unfolding collect last_table elect count_key pick
elect_one n [] votes c garbage h = rw (h, elect) refl
elect_one n (missing ∷ fds) votes c garbage h = elect_one n fds votes c garbage h
elect_one n (unopened name ∷ fds) votes c garbage h = elect_one n fds votes c garbage h
elect_one n (shard name file ∷ fds) votes c garbage h = elim (Bool-cases (ltb (length file) n)) [
  | inl e ↦ rw e (elect_one n fds votes c garbage h)
  | inr e ↦ rw e (
      elect_one n fds
        (record { cur_hash_val = last_bytes n file; items = count_key cur_hash_ptr votes.items })
        (c + 1) garbage (rw h refl))
]

elect_none :
    (n : ℕ) (fds : List Slot) (cur garbage : Bytes)
    → elect (collect n fds (record { cur_hash_val = cur; items = [] })) garbage
      ≡ last_table n fds garbage
unfolding collect last_table elect count_key pick
elect_none n [] cur garbage = refl
elect_none n (missing ∷ fds) cur garbage = elect_none n fds cur garbage
elect_none n (unopened name ∷ fds) cur garbage = elect_none n fds cur garbage
elect_none n (shard name file ∷ fds) cur garbage = elim (Bool-cases (ltb (length file) n)) [
  | inl e ↦ rw e (elect_none n fds cur garbage)
  | inr e ↦ rw e (
      elect_one n fds (record { cur_hash_val = last_bytes n file; items = (cur_hash_ptr, 1) ∷ [] })
        1 garbage refl)
]

-- The digests that are trusted are those at the end of the last file that is long enough, however
-- many other files agree on different ones.
pub true_hash_val-last :
    (n : ℕ) (fds : List Slot) (garbage : Bytes)
    → true_hash_val n fds garbage ≡ last_table n fds garbage
unfolding true_hash_val
true_hash_val-last n fds garbage = elect_none n fds [] garbage
