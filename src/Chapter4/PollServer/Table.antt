-- ===== src/Chapter4/PollServer/Table.antt =====
-- Where a new client is put in the table.
use nowcoder_linux_learning.Base.{
  ℕ, zero, suc, ◌+◌, ◌≤◌, ◌<◌, ◌≡◌, ◌≢◌, refl, ◌⊎◌, inl, inr, Option, none, some, Option-cases,
  Bool-cases, ◌==◌, ==_true, ap, arith,
}
use nowcoder_linux_learning.Base.Sums.{move}
use nowcoder_linux_learning.Chapter4.PollServer.{insert_client}

pub record Inserted (k i : ℕ) (fds : ℕ → Option ℕ) (fd : ℕ) : Type 0 where
  pub at : ℕ
  pub from : i ≤ at
  pub below : at < i + k
  pub free : fds at ≡ none
  pub before : (j : ℕ) → i ≤ j → j < at → fds j ≢ none
  pub result : insert_client k i fds fd ≡ move fds at (some fd)

pub record Full (k i : ℕ) (fds : ℕ → Option ℕ) (fd : ℕ) : Type 0 where
  pub all_used : (j : ℕ) → i ≤ j → j < i + k → fds j ≢ none
  pub result : insert_client k i fds fd ≡ fds

-- One more entry in front.
used_from :
    (fds : ℕ → Option ℕ) (i n f : ℕ)
    → fds i ≡ some f
    → ((j : ℕ) → i + 1 ≤ j → j < n → fds j ≢ none)
    → (j : ℕ) → i ≤ j
    → j < n
    → fds j ≢ none
used_from fds i n f e r j h l = elim (Bool-cases (i == j)) [
  | inl q ↦ let same = ==_true i j q in λ a. cc (ap fds same)
  | inr q ↦ r j (ground arith) l
]

-- The loop that looks for a free entry takes the first one and changes no other, or every entry is
-- in use and the table stays as it is.
pub insert_client-cases :
    (k i : ℕ) (fds : ℕ → Option ℕ) (fd : ℕ) → Inserted k i fds fd ⊎ Full k i fds fd
unfolding insert_client
insert_client-cases zero i fds fd =
    inr (record { all_used = λ j h k. absurd (omega arith); result = refl })
insert_client-cases (suc k) i fds fd = elim (Option-cases (fds i)) [
  | inl e ↦ inl (record {
    at = i;
    from = omega arith;
    below = omega arith;
    free = e;
    before = λ j h l. absurd (omega arith);
    result = rw (e, insert_client);
  })
  | inr (f, e) ↦ elim (insert_client-cases k (i + 1) fds fd) [
    | inl r ↦ inl (record {
      at = r.at;
      from = omega (arith, r.from);
      below = omega (arith, r.below);
      free = r.free;
      before = used_from fds i r.at f e r.before;
      result = rw (e, insert_client) r.result;
    })
    | inr r ↦ inr (record {
      all_used = λ j h l. used_from fds i (i + 1 + k) f e r.all_used j h (omega arith);
      result = rw (e, insert_client) r.result;
    })
  ]
]
