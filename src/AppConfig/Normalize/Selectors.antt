-- ===== src/AppConfig/Normalize/Selectors.antt =====
-- Cleaning a placement selector twice (`normalizePlacementSelectors`).
use mathlib.Core.List.{append-nil, append_assoc}
use self_hosted_deployer.Common.{
  String, Bool, true, false, List, [], ◌∷◌, ◌++◌, ◌≡◌, refl, sym, ◌∙◌, ◌==◌, eq_iff, not, ◌&&◌,
  is_empty, trim_space, arith, Bool-cases, and-true, inl, inr,
}
use self_hosted_deployer.Common.Text.Trim.{trim_space-trim_space}
use self_hosted_deployer.AppConfig.Types.{Selector}
use self_hosted_deployer.AppConfig.Normalize.{put, clean_entries, normalize_placement_selectors}

-- No entry of the selector has the key.
abbrev pub lacks : String → Selector → Bool
lacks k [] = true
lacks k ((j, w) ∷ m) = not (j == k) && lacks k m

-- Distinct keys that are trimmed and not empty, with trimmed values.
pub data IsClean : Selector → Type 0 where
  nil : IsClean []
  cons :
      {k v : String} {m : Selector}
      → is_empty k ≡ false
      → trim_space k ≡ k
      → trim_space v ≡ v
      → lacks k m ≡ true
      → IsClean m
      → IsClean ((k, v) ∷ m)

lacks-put :
    (j k v : String) (m : Selector)
    → (j == k) ≡ false
    → lacks k m ≡ true
    → lacks k (put j v m) ≡ true
unfolding put
lacks-put j k v [] h l = rw h
lacks-put j k v ((i, w) ∷ m) h l = ground (arith, lacks-put j k v m, eq_iff i j, eq_iff i k)

eq_sym : (i k : String) → (i == k) ≡ false → (k == i) ≡ false
eq_sym i k h = ground (arith, eq_iff i k, eq_iff k i)

put-IsClean :
    (k v : String) (m : Selector)
    → is_empty k ≡ false
    → trim_space k ≡ k
    → trim_space v ≡ v
    → IsClean m
    → IsClean (put k v m)
unfolding put
put-IsClean k v [] e tk tv h = IsClean.cons e tk tv refl IsClean.nil
put-IsClean k v ((j, w) ∷ m) e tk tv (IsClean.cons e' tk' tv' l h) = elim (Bool-cases (j == k)) [
  | inl same ↦ rw same (IsClean.cons e tk tv (rw (← (eq_iff j k).0 same) l) h)
  | inr ne ↦
      rw ne (
        IsClean.cons e' tk' tv' (lacks-put k j v m (eq_sym j k ne) l) (put-IsClean k v m e tk tv h))
]

-- Whatever the entries, what the loop leaves is clean.
pub clean_entries-IsClean : (clean m : Selector) → IsClean clean → IsClean (clean_entries clean m)
unfolding clean_entries
clean_entries-IsClean clean [] h = h
clean_entries-IsClean clean ((k, v) ∷ m) h = elim (Bool-cases (is_empty (trim_space k))) [
  | inl e ↦ rw e (clean_entries-IsClean clean m h)
  | inr e ↦ rw e (
      clean_entries-IsClean (put (trim_space k) (trim_space v) clean) m (
        put-IsClean (trim_space k) (trim_space v) clean e (trim_space-trim_space k)
          (trim_space-trim_space v) h))
]

put_new : (k v : String) (m : Selector) → lacks k m ≡ true → put k v m ≡ m ++ (k, v) ∷ []
unfolding put
put_new k v [] l = refl
put_new k v ((j, w) ∷ m) l = ground (arith, put_new k v m)

-- No entry of the first selector has a key of the second.
abbrev apart : Selector → Selector → Bool
apart a [] = true
apart a ((k, v) ∷ m) = lacks k a && apart a m

lacks-append :
    (k j v : String) (a : Selector)
    → lacks k a ≡ true
    → (j == k) ≡ false
    → lacks k (a ++ (j, v) ∷ []) ≡ true
lacks-append k j v [] l h = rw h
lacks-append k j v ((i, w) ∷ a) l h = ground (arith, lacks-append k j v a)

apart-append :
    (j v : String) (a m : Selector)
    → apart a m ≡ true
    → lacks j m ≡ true
    → apart (a ++ (j, v) ∷ []) m ≡ true
apart-append j v a [] p l = refl
apart-append j v a ((k, w) ∷ m) p l =
    ground (arith, lacks-append k j v a, apart-append j v a m, eq_sym k j)

clean_entries_of_clean :
    (a m : Selector) → IsClean m → apart a m ≡ true → clean_entries a m ≡ a ++ m
unfolding clean_entries
clean_entries_of_clean a [] h p = sym (append-nil a)
clean_entries_of_clean a ((k, v) ∷ m) (IsClean.cons e tk tv l h) p =
    rw (tk, tv, e, put_new k v a (and-true _ _ p).0)
      (clean_entries_of_clean (a ++ (k, v) ∷ []) m h (apart-append k v a m (and-true _ _ p).1 l)
        ∙ append_assoc a ((k, v) ∷ []) m)

pub apart-nil : (m : Selector) → apart [] m ≡ true
apart-nil [] = refl
apart-nil ((k, v) ∷ m) = apart-nil m

clean_twice : (m : Selector) → clean_entries [] (clean_entries [] m) ≡ clean_entries [] m
clean_twice m =
    clean_entries_of_clean [] (clean_entries [] m) (clean_entries-IsClean [] m IsClean.nil)
      (apart-nil (clean_entries [] m))

pub normalize_selectors_twice :
    (ms : List Selector)
    → normalize_placement_selectors (normalize_placement_selectors ms)
      ≡ normalize_placement_selectors ms
unfolding normalize_placement_selectors
normalize_selectors_twice [] = refl
normalize_selectors_twice (m ∷ ms) = rw (clean_twice m, normalize_selectors_twice ms)
