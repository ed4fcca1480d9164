-- ===== src/Raft/AppendLaws.antt =====
-- What `handle_append_entries` does to the log, without indices: the part before the request stays,
-- and behind it the first conflict cuts the old entries off.
use chono_db.Prelude.{
  ℕ, suc, ◌≡◌, refl, sym, ap, ◌∙◌, arith, ◌==◌, if◌then◌else◌, Bool-cases, inl, inr, some, List, [],
  ◌∷◌, ◌++◌, append-nil, append_assoc, length, length-append, take, get_elem?,
}
use chono_db.Raft.Node.{LogEntry, position}
use chono_db.Raft.Append.{append_entry, append_all}

-- The entries carry the indices from `i` on.
abbrev pub Indexed : ℕ → List LogEntry → Type 0
Indexed i [] = Unit {0}
Indexed i (e ∷ es) = (e.index ≡ i) × Indexed (suc i) es

-- The conflict rule: old entries stay while their terms agree with the new ones.
abbrev pub merge : List LogEntry → List LogEntry → List LogEntry
merge old [] = old
merge [] (n ∷ ns) = n ∷ ns
merge (o ∷ os) (n ∷ ns) = if o.term == n.term then o ∷ merge os ns else n ∷ ns

get_behind {ℓ} :
    {A : Type ℓ} (front : List A) (x : A) (back : List A)
    → get_elem? (front ++ x ∷ back) (length front) ≡ some x
get_behind [] x back = refl
get_behind (y ∷ front) x back = get_behind front x back

take_front {ℓ} : {A : Type ℓ} (front back : List A) → take (length front) (front ++ back) ≡ front
take_front [] back = refl
take_front (y ∷ front) back = ap (λ l. y ∷ l) (take_front front back)

-- One entry at the end of the log, at an agreeing entry, and at a conflict.
append_new :
    (front : List LogEntry) (n : LogEntry)
    → n.index ≡ suc (length front)
    → append_entry front n ≡ front ++ n ∷ []
unfolding append_entry
append_new front n e = rw e (ground arith)

append_old :
    (front : List LogEntry) (o n : LogEntry) (os : List LogEntry)
    → n.index ≡ suc (length front)
    → append_entry (front ++ o ∷ os) n
      ≡ (if o.term == n.term then front ++ o ∷ os else front ++ n ∷ [])
unfolding append_entry position
append_old front o n os e =
    rw e (
      ground
        (arith, length-append front (o ∷ os), get_behind front o os, take_front front (o ∷ os)))

longer :
    (front : List LogEntry) (n : LogEntry) (i : ℕ)
    → i ≡ suc (length front)
    → suc i ≡ suc (length (front ++ n ∷ []))
longer front n i e = omega (arith, length-append front (n ∷ []))

append_all-fresh :
    (front : List LogEntry) (i : ℕ) (entries : List LogEntry)
    → i ≡ suc (length front)
    → Indexed i entries
    → append_all front entries ≡ front ++ entries
unfolding append_all
append_all-fresh front i [] e h = rw append-nil
append_all-fresh front i (n ∷ ns) e h = rw (append_new front n (h.0 ∙ e)) (
    append_all-fresh (front ++ n ∷ []) (suc i) ns (longer front n i e) h.1
    ∙ append_assoc front (n ∷ []) ns)

merge-nil : (entries : List LogEntry) → merge [] entries ≡ entries
merge-nil [] = refl
merge-nil (n ∷ ns) = refl

-- The loop over the entries is the conflict rule behind the entries that it does not reach.
pub append_all-merge :
    (front back : List LogEntry) (i : ℕ) (entries : List LogEntry)
    → i ≡ suc (length front)
    → Indexed i entries
    → append_all (front ++ back) entries ≡ front ++ merge back entries
unfolding append_all append_entry
append_all-merge front back i [] e h = refl
append_all-merge front [] i (n ∷ ns) e h = rw append-nil (append_all-fresh front i (n ∷ ns) e h)
append_all-merge front (o ∷ os) i (n ∷ ns) e h =
    ap (λ l. append_all l ns) (append_old front o n os (h.0 ∙ e))
    ∙ elim (Bool-cases (o.term == n.term)) [
      | inl agree ↦ rw agree (
          ap (λ l. append_all l ns) (sym (append_assoc front (o ∷ []) os))
          ∙ append_all-merge (front ++ o ∷ []) os (suc i) ns (longer front o i e) h.1
          ∙ append_assoc front (o ∷ []) (merge os ns))
      | inr conflict ↦ rw conflict (
          append_all-fresh (front ++ n ∷ []) (suc i) ns (longer front n i e) h.1
          ∙ append_assoc front (n ∷ []) ns)
    ]
