-- ===== src/Replay/Refinement.antt =====
-- The bitmap beside the filter over the whole history.
use my_websocket_net.Prelude.{
  ℕ, ◌+◌, ◌-◌, ◌≤◌, ◌<◌, ◌≡◌, refl, sym, ◌∙◌, inl, inr, Bool-cases, false, ap, le→ltb, lt→ltb,
  Option, Option-cases, ◌≢◌, ◌%◌, ==→eq, ==→ne, none, some, List, [], ◌∷◌, arith, ltb, leb, ◌==◌,
  length, length-replicate, ltb→lt, ltb→le, leb→le, leb→lt, ne→==,
}
use my_websocket_net.Prelude.Result.{ok}
use my_websocket_net.Limits.{replay_window, replay_max_forward_jump}
use my_websocket_net.Replay.{
  ReplayWindow, new, refresh, advance, judge, check_with, check_and_record,
}
use my_websocket_net.Replay.Bitmap.{
  words, is_marked, mark, is_marked-mark, is_marked-clear_range_in, is_marked-clear_range_out,
  is_marked-replicate, length-mark, length-clear_range,
}
use my_websocket_net.Replay.Window.{highest_of, member, verdict, verdict_at, recorded}

pub member_of_none :
    (q : ℕ) (history : List ℕ) → highest_of history ≡ none → member q history ≡ false
unfolding highest_of member
member_of_none q [] e = refl
member_of_none q (p ∷ history) e = absurd (ground arith)

-- In a history whose largest number is `h` nothing above `h` occurs.
pub member_above :
    (q h : ℕ) (history : List ℕ) → highest_of history ≡ some h → h < q → member q history ≡ false
unfolding highest_of member
member_above q h [] e lt = refl
member_above q h (p ∷ history) e lt = elim (Option-cases (highest_of history)) [
  | inl none_yet ↦ ground (arith, none_yet, member_of_none q history none_yet)
  | inr (h', at) ↦ ground (arith, at, member_above q h' history at)
]

-- What the bitmap owes the history in its window.
pub record Knows (h : ℕ) (seen history : List ℕ) : Type 0 where
  pub sized : length seen ≡ words
  pub knows : (q : ℕ) → q ≤ h → h < q + replay_window → is_marked seen q ≡ member q history

-- What the filter owes its history, by the high-water mark that they share.
abbrev pub RefinesAt : Option ℕ → List ℕ → List ℕ → Type 0
RefinesAt none seen history = (length seen ≡ words) × ((q : ℕ) → is_marked seen q ≡ false)
RefinesAt (some h) seen history = Knows h seen history

pub record Refines (w : ReplayWindow) (history : List ℕ) : Type 0 where
  pub highest : w.highest ≡ highest_of history
  pub bitmap : RefinesAt w.highest w.seen history

-- Marking a number in the window records it.
mark-Knows :
    (h p : ℕ) (seen history : List ℕ)
    → length seen ≡ words
    → p ≤ h
    → h < p + replay_window
    → ((q : ℕ) → q ≤ h → h < q + replay_window → p ≢ q → is_marked seen q ≡ member q history)
    → Knows h (mark seen p) (p ∷ history)
unfolding member
mark-Knows h p seen history sized lo hi old = record {
  sized = length-mark seen p ∙ sized;
  knows = λ q ql qh. elim (Bool-cases (p == q)) [
    | inl e ↦ is_marked-mark seen p q sized ∙ rw (==→eq p q e) (ground arith)
    | inr e ↦
        is_marked-mark seen p q sized
        ∙ rw (ne→== (p % replay_window) (q % replay_window) (λ s. ==→ne p q e (omega arith)), e)
            (old q ql qh (==→ne p q e))
  ];
}

pub verdict-at :
    (p h : ℕ) (history : List ℕ)
    → highest_of history ≡ some h
    → verdict history p ≡ verdict_at history p (some h)
unfolding verdict
verdict-at p h history e = ap (verdict_at history p) e

pub verdict-none :
    (p : ℕ) (history : List ℕ) → highest_of history ≡ none → verdict history p ≡ ok tt
unfolding verdict
verdict-none p history e = ap (verdict_at history p) e

highest_of-cons_none :
    (p : ℕ) (history : List ℕ) → highest_of history ≡ none → highest_of (p ∷ history) ≡ some p
unfolding highest_of
highest_of-cons_none p history e = rw e

-- Freed slots are those of numbers that no history below `p` has.
module _ (h p : ℕ) (seen history : List ℕ) (later : h < p) (top : highest_of history ≡ some h)
    (k : Knows h seen history) where
  length-refresh : length (refresh seen h p) ≡ words
  unfolding refresh
  length-refresh = elim (Bool-cases (leb replay_window (p - h))) [
    | inl whole ↦ rw whole (length-replicate {A = ℕ} words 0)
    | inr part ↦ rw part (length-clear_range (h + 1) (p - h) seen ∙ k.sized)
  ]

  is_marked-refresh :
      (q : ℕ)
      → q ≤ p
      → p < q + replay_window
      → p ≢ q
      → is_marked (refresh seen h p) q ≡ member q history
  unfolding refresh
  is_marked-refresh q le within ne = elim (Bool-cases (leb replay_window (p - h))) [
    | inl whole ↦ rw whole (
        is_marked-replicate words q
        ∙ sym (member_above q h history top (omega (arith, leb→le _ _ whole))))
    | inr part ↦ rw part (elim (Bool-cases (ltb h q)) [
      | inl new_slot ↦
          is_marked-clear_range_in (h + 1) (p - h) seen q k.sized
            (omega (arith, ltb→lt _ _ new_slot)) (omega arith)
          ∙ sym (member_above q h history top (ltb→lt _ _ new_slot))
      | inr old ↦
          is_marked-clear_range_out (h + 1) (p - h) seen q k.sized (omega (arith, ltb→le _ _ old))
            (omega arith)
          ∙ k.knows q (ltb→le _ _ old) (omega arith)
    ])
  ]

  advance-Refines :
      ((advance seen h p).0 ≡ verdict history p)
      × Refines (advance seen h p).1 (recorded (verdict history p) p history)
  unfolding advance highest_of
  advance-Refines =
      rw (verdict-at p h history top, lt→ltb h p later)
        (elim (Bool-cases (ltb replay_max_forward_jump (p - h))) [
          | inl far ↦ rw far (refl, record { highest = sym top; bitmap = k })
          | inr near ↦ rw near (
            refl,
            record {
              highest = rw top (rw (lt→ltb h p later));
              bitmap =
                  mark-Knows p p (refresh seen h p) history length-refresh (omega arith)
                    (omega arith) is_marked-refresh;
            },
          )
        ])

module _ (h p : ℕ) (seen history : List ℕ) (earlier : p ≤ h) (top : highest_of history ≡ some h)
    (k : Knows h seen history) where
  judge-Refines :
      ((judge seen h p).0 ≡ verdict history p)
      × Refines (judge seen h p).1 (recorded (verdict history p) p history)
  unfolding judge highest_of
  judge-Refines =
      rw (verdict-at p h history top, le→ltb h p earlier)
        (elim (Bool-cases (leb replay_window (h - p))) [
          | inl old ↦ rw old (refl, record { highest = sym top; bitmap = k })
          | inr inside ↦
              rw (inside, k.knows p earlier (omega (arith, leb→lt _ _ inside)))
                (elim (Bool-cases (member p history)) [
                  | inl again ↦ rw again (refl, record { highest = sym top; bitmap = k })
                  | inr fresh ↦ rw fresh (
                    refl,
                    record {
                      highest = rw top (rw (le→ltb h p earlier));
                      bitmap =
                          mark-Knows h p seen history k.sized earlier
                            (omega (arith, leb→lt _ _ inside)) (λ q ql qh ne. k.knows q ql qh);
                    },
                  )
                ])
        ])

-- One packet: the bitmap gives the verdict that the history demands, and goes on refining it.
pub check_and_record-Refines :
    (w : ReplayWindow) (history : List ℕ) (p : ℕ)
    → Refines w history
    → ((check_and_record w p).0 ≡ verdict history p)
      × Refines (check_and_record w p).1 (recorded (verdict history p) p history)
unfolding check_and_record
check_and_record-Refines w history p r = go w.highest refl r.highest r.bitmap
  where
    go :
        (top : Option ℕ)
        → w.highest ≡ top
        → top ≡ highest_of history
        → RefinesAt top w.seen history
        → ((check_with w.seen p top).0 ≡ verdict history p)
          × Refines (check_with w.seen p top).1 (recorded (verdict history p) p history)
    go none at top (sized, blank) = rw (verdict-none p history (sym top)) (
      refl,
      record {
        highest = sym (highest_of-cons_none p history (sym top));
        bitmap =
            mark-Knows p p w.seen history sized (omega arith) (omega arith)
              (λ q ql qh ne. blank q ∙ sym (member_of_none q history (sym top)));
      },
    )
    go (some h) at top k = elim (Bool-cases (ltb h p)) [
      | inl later ↦ rw later (advance-Refines h p w.seen history (ltb→lt h p later) (sym top) k)
      | inr earlier ↦ rw earlier (judge-Refines h p w.seen history (ltb→le h p earlier) (sym top) k)
    ]

-- The filter starts with nothing recorded.
pub new-Refines : Refines new []
unfolding new highest_of member
new-Refines = record {
  highest = refl;
  bitmap = (length-replicate {A = ℕ} words 0, is_marked-replicate words);
}
