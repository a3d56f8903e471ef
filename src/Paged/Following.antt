-- ===== src/Paged/Following.antt =====
-- A reader that follows a paged log, while others append to it.
use any_sync_coordinator.Prelude.{
  ℕ, zero, suc, ◌+◌, ◌*◌, ◌≤◌, String, Bool, ◌≡◌, ◌≢◌, ◌⊎◌, refl, sym, subst, ap, ◌∙◌, inl, inr,
  List, [], ◌∷◌, ◌++◌, length, length-append, take, ltb, arith,
}
use any_sync_coordinator.Outcome.{Result, ok, err}
use any_sync_coordinator.Paged.{PagedLog, IsPrompt, page}

module _ {A : Type 0} where
  abbrev pub drop : ℕ → List A → List A
  drop zero l = l
  drop (suc n) [] = []
  drop (suc n) (a ∷ l) = drop n l

  take-drop : (n : ℕ) (l : List A) → take n l ++ drop n l ≡ l
  take-drop zero l = refl
  take-drop (suc n) [] = refl
  take-drop (suc n) (a ∷ l) = ap (λ t. a ∷ t) (take-drop n l)

  drop-length : (n : ℕ) (l : List A) → (length l ≤ n) → drop n l ≡ []
  drop-length zero [] h = refl
  drop-length zero (a ∷ l) h = absurd (omega arith)
  drop-length (suc n) [] h = refl
  drop-length (suc n) (a ∷ l) h = drop-length n l (omega arith)

  length-drop : (n k : ℕ) (l : List A) → length l ≤ k + n → length (drop n l) ≤ k
  length-drop zero k l h = omega arith
  length-drop (suc n) k [] h = omega arith
  length-drop (suc n) k (a ∷ l) h = length-drop n k l (omega arith)

  append_nil : (l : List A) → l ++ [] ≡ l
  append_nil [] = refl
  append_nil (a ∷ l) = ap (λ t. a ∷ t) (append_nil l)

  append_assoc : (xs ys zs : List A) → (xs ++ ys) ++ zs ≡ xs ++ (ys ++ zs)
  append_assoc [] ys zs = refl
  append_assoc (a ∷ xs) ys zs = ap (λ t. a ∷ t) (append_assoc xs ys zs)

module _ {W A : Type 0} (log : PagedLog W A) where
  -- The cursor of the last entry.
  abbrev pub last_cursor : List A → String
  last_cursor [] = ""
  last_cursor (a ∷ []) = log.cursor a
  last_cursor (a ∷ b ∷ l) = last_cursor (b ∷ l)

  -- The reader's list after an answer; after an error it stays.
  abbrev pub with_answer : List A → Result (List A × Bool) → List A
  with_answer seen (ok (more, _)) = seen ++ more
  with_answer seen (err e) = seen

  -- The reader asks for what follows the last entry that it has.
  unfoldable pub poll : W → List A → List A
  poll w seen = with_answer seen (log.get_after (last_cursor seen) w).0

  unfoldable pub polls : ℕ → W → List A → List A
  polls zero w seen = seen
  polls (suc n) w seen = polls n w (poll w seen)

  -- What happens to the log and to the reader's list, in any order.
  pub data Step (w : W) (seen : List A) : W → List A → Type 0 where
    append :
        {w' : W} (more : List A)
        → log.IsReady w'
        → log.entries w' ≡ log.entries w ++ more
        → Step w seen w' seen
    polled : {seen' : List A} → seen' ≡ poll w seen → Step w seen w seen'

  pub data Reach (w0 : W) : W → List A → Type 0 where
    start : Reach w0 w0 []
    later :
        {w w' : W} {seen seen' : List A}
        → Reach w0 w seen
        → Step w seen w' seen'
        → Reach w0 w' seen'

  -- The reader has the first entries of the log, each once and in their order.
  pub record Follows (w : W) (seen : List A) : Type 0 where
    pub ready : log.IsReady w
    pub rest : List A
    pub whole : log.entries w ≡ seen ++ rest

  -- The reader's list, split before its last entry, reads on at the rest.
  module _ (w : W) (P : String → List A → Type 0) (first : P "" (log.entries w))
      (next : (xs : List A) (a : A) (ys : List A)
        → log.entries w ≡ xs ++ a ∷ ys
        → P (log.cursor a) ys) where
    read_on :
        (before seen rest : List A)
        → log.entries w ≡ before ++ (seen ++ rest)
        → (before ≡ []) ⊎ (seen ≢ [])
        → P (last_cursor seen) rest
    read_on before [] rest h (inl none) = subst (P "") (rw none at h) first
    read_on before [] rest h (inr some) = absurd (some refl)
    read_on before (a ∷ []) rest h c = next before a rest h
    read_on before (a ∷ b ∷ seen) rest h c =
        read_on (before ++ a ∷ []) (b ∷ seen) rest
          (h ∙ sym (append_assoc before (a ∷ []) (b ∷ seen ++ rest))) (inr (λ e. cc e))

  -- The next call is for one page of the rest.
  pub read_rest :
      (w : W) (seen : List A) (f : Follows w seen) → log.Answers (last_cursor seen) w f.rest
  read_rest w seen f =
      read_on w (λ c rest. log.Answers c w rest) (log.start w f.ready) (log.next w f.ready) [] seen
        f.rest f.whole (inl refl)

  read_rest-prompt :
      (w : W) (seen : List A) (f : Follows w seen)
      → IsPrompt log w
      → log.get_after (last_cursor seen) w ≡ (ok (page log.limit f.rest), w)
  read_rest-prompt w seen f prompt =
      read_on w (λ c rest. log.get_after c w ≡ (ok (page log.limit rest), w)) prompt.start
        prompt.next [] seen f.rest f.whole (inl refl)

  -- A poll that is answered takes the first of the rest.
  answered :
      (w : W) (seen : List A) (f : Follows w seen) (j : ℕ) (more : Bool)
      → log.get_after (last_cursor seen) w ≡ (ok (take j f.rest, more), w)
      → (poll w seen ≡ seen ++ take j f.rest)
  unfolding poll
  answered w seen f j more h = rw h refl

  after_page :
      (w : W) (seen : List A) (f : Follows w seen) (j : ℕ) → Follows w (seen ++ take j f.rest)
  after_page w seen f j = record {
    ready = f.ready;
    rest = drop j f.rest;
    whole =
        f.whole
        ∙ ap (λ l. seen ++ l) (sym (take-drop j f.rest))
        ∙ sym (append_assoc seen (take j f.rest) (drop j f.rest));
  }

  poll-Follows : (w : W) (seen : List A) → Follows w seen → Follows w (poll w seen)
  unfolding poll
  poll-Follows w seen f = elim (log.reads_some (last_cursor seen) w f.rest (read_rest w seen f)) [
    | inl (j, more, p) ↦ rw p (after_page w seen f j)
    | inr (n, p) ↦ rw p f
  ]

  pub Step-Follows :
      {w w' : W} {seen seen' : List A} → Step w seen w' seen' → Follows w seen → Follows w' seen'
  Step-Follows {w} {w'} {seen} {seen'} (append more ready grown) f = record {
    ready = ready;
    rest = f.rest ++ more;
    whole = grown ∙ ap (λ l. l ++ more) f.whole ∙ append_assoc seen f.rest more;
  }
  Step-Follows {w} {w'} {seen} {seen'} (polled e) f =
      subst (Follows w) (sym e) (poll-Follows w seen f)

  pub Reach-Follows : {w0 w : W} {seen : List A} → log.IsReady w0 → Reach w0 w seen → Follows w seen
  Reach-Follows {w0} ready start = record { ready = ready; rest = log.entries w0; whole = refl }
  Reach-Follows ready (later r s) = Step-Follows s (Reach-Follows ready r)

  -- While every call is answered by a whole page and nothing is appended, as many polls as the rest
  -- has pages are enough.
  pub catch_up :
      (w : W)
      → IsPrompt log w
      → (n : ℕ) (seen : List A) (f : Follows w seen) → length f.rest ≤ n * log.limit
      → polls n w seen ≡ log.entries w
  unfolding polls after_page
  catch_up w prompt zero seen f h =
      sym (f.whole ∙ ap (λ l. seen ++ l) (drop-length 0 f.rest (omega arith)) ∙ append_nil seen)
  catch_up w prompt (suc n) seen f h =
      let p = read_rest-prompt w seen f prompt in
      rw (answered w seen f log.limit (ltb log.limit (length f.rest)) p) (
        catch_up w prompt n (seen ++ take log.limit f.rest) (after_page w seen f log.limit)
          (length-drop log.limit (n * log.limit) f.rest (grind arith)))

  -- What a reader has, and what the next call returns, at any time.
  abbrev pub IsFollowed : W → List A → Type 0
  IsFollowed w seen =
      (rest : List A) × (log.entries w ≡ seen ++ rest) × log.Answers (last_cursor seen) w rest

  pub Reach-IsFollowed :
      {w0 w : W} {seen : List A} → log.IsReady w0 → Reach w0 w seen → IsFollowed w seen
  Reach-IsFollowed {w0} {w} {seen} ready r =
      let f = Reach-Follows ready r in (f.rest, f.whole, read_rest w seen f)

  pub Reach-catches_up :
      {w0 w : W} {seen : List A}
      → log.IsReady w0
      → Reach w0 w seen
      → IsPrompt log w
      → (calls : ℕ) → length (log.entries w) ≤ length seen + calls * log.limit
      → polls calls w seen ≡ log.entries w
  Reach-catches_up {w0} {w} {seen} ready r prompt calls h =
      let f = Reach-Follows ready r in
      catch_up w prompt calls seen f
        (omega (arith, h, ap length f.whole, length-append seen f.rest))
