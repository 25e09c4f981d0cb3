-- ===== src/Tests/Heap.antt =====
-- Cells of metadata, text and subprograms among them, that are only ever added.
use bpf_linker.Prelude.{
  ℕ, zero, suc, ◌≤◌, arith, ◌≡◌, refl, ap, ◌⊎◌, inl, inr, Option, none, some, List, [], ◌∷◌, ◌++◌,
  length, Text,
}
use bpf_linker.Types.Api.{Ref, MetadataKind, md_tuple, di_subprogram}

pub data Cell : Type 0 where
  node program : Cell
  string : Text → Cell

-- The cell at an address `i` is the one before the `i`-th; 0 is null.
abbrev pub kind_at : List Cell → Ref → MetadataKind
kind_at cs zero = md_tuple
kind_at [] (suc i) = md_tuple
kind_at (program ∷ cs) (suc zero) = di_subprogram
kind_at (node ∷ cs) (suc zero) = md_tuple
kind_at (string t ∷ cs) (suc zero) = md_tuple
kind_at (c ∷ cs) (suc (suc i)) = kind_at cs (suc i)

abbrev pub text_at : List Cell → Ref → Option Text
text_at cs zero = none
text_at [] (suc i) = none
text_at (program ∷ cs) (suc zero) = none
text_at (node ∷ cs) (suc zero) = none
text_at (string t ∷ cs) (suc zero) = some t
text_at (c ∷ cs) (suc (suc i)) = text_at cs (suc i)

module _ (c : Cell) where
  pub text_at-append :
      (cs : List Cell) (w : Ref) (t : Text)
      → text_at cs w ≡ some t
      → text_at (cs ++ c ∷ []) w ≡ some t
  text_at-append cs zero t h = cc
  text_at-append [] (suc i) t h = cc
  text_at-append (program ∷ cs) (suc zero) t h = h
  text_at-append (node ∷ cs) (suc zero) t h = h
  text_at-append (string x ∷ cs) (suc zero) t h = h
  text_at-append (program ∷ cs) (suc (suc i)) t h = text_at-append cs (suc i) t h
  text_at-append (node ∷ cs) (suc (suc i)) t h = text_at-append cs (suc i) t h
  text_at-append (string x ∷ cs) (suc (suc i)) t h = text_at-append cs (suc i) t h

pub kind_at-string :
    (x : Text) (cs : List Cell) (w : Ref) → kind_at (cs ++ string x ∷ []) w ≡ kind_at cs w
kind_at-string x cs zero = refl
kind_at-string x [] (suc zero) = refl
kind_at-string x [] (suc (suc i)) = refl
kind_at-string x (program ∷ cs) (suc zero) = refl
kind_at-string x (node ∷ cs) (suc zero) = refl
kind_at-string x (string t ∷ cs) (suc zero) = refl
kind_at-string x (program ∷ cs) (suc (suc i)) = kind_at-string x cs (suc i)
kind_at-string x (node ∷ cs) (suc (suc i)) = kind_at-string x cs (suc i)
kind_at-string x (string t ∷ cs) (suc (suc i)) = kind_at-string x cs (suc i)

pub kind_at-node : (cs : List Cell) (w : Ref) → kind_at (cs ++ node ∷ []) w ≡ kind_at cs w
kind_at-node cs zero = refl
kind_at-node [] (suc zero) = refl
kind_at-node [] (suc (suc i)) = refl
kind_at-node (program ∷ cs) (suc zero) = refl
kind_at-node (node ∷ cs) (suc zero) = refl
kind_at-node (string t ∷ cs) (suc zero) = refl
kind_at-node (program ∷ cs) (suc (suc i)) = kind_at-node cs (suc i)
kind_at-node (node ∷ cs) (suc (suc i)) = kind_at-node cs (suc i)
kind_at-node (string t ∷ cs) (suc (suc i)) = kind_at-node cs (suc i)

pub text_at-new :
    (t : Text) (cs : List Cell) → text_at (cs ++ string t ∷ []) (suc (length cs)) ≡ some t
text_at-new t [] = refl
text_at-new t (program ∷ cs) = text_at-new t cs
text_at-new t (node ∷ cs) = text_at-new t cs
text_at-new t (string x ∷ cs) = text_at-new t cs

pub kind_at-end : (cs : List Cell) → kind_at cs (suc (length cs)) ≡ md_tuple
kind_at-end [] = refl
kind_at-end (program ∷ cs) = kind_at-end cs
kind_at-end (node ∷ cs) = kind_at-end cs
kind_at-end (string x ∷ cs) = kind_at-end cs

pub text_at-program :
    (cs : List Cell) (w : Ref) → kind_at cs w ≡ di_subprogram → text_at cs w ≡ none
text_at-program cs zero h = refl
text_at-program [] (suc i) h = refl
text_at-program (program ∷ cs) (suc zero) h = refl
text_at-program (node ∷ cs) (suc zero) h = refl
text_at-program (string t ∷ cs) (suc zero) h = cc
text_at-program (program ∷ cs) (suc (suc i)) h = text_at-program cs (suc i) h
text_at-program (node ∷ cs) (suc (suc i)) h = text_at-program cs (suc i) h
text_at-program (string t ∷ cs) (suc (suc i)) h = text_at-program cs (suc i) h

pub kind_at-program :
    (cs : List Cell) (w : Ref)
    → kind_at cs w ≡ di_subprogram
    → kind_at (cs ++ program ∷ []) w ≡ di_subprogram
kind_at-program cs zero h = h
kind_at-program [] (suc i) h = cc
kind_at-program (program ∷ cs) (suc zero) h = h
kind_at-program (node ∷ cs) (suc zero) h = h
kind_at-program (string t ∷ cs) (suc zero) h = h
kind_at-program (program ∷ cs) (suc (suc i)) h = kind_at-program cs (suc i) h
kind_at-program (node ∷ cs) (suc (suc i)) h = kind_at-program cs (suc i) h
kind_at-program (string t ∷ cs) (suc (suc i)) h = kind_at-program cs (suc i) h

shifted : {P : Type 0} {i n : ℕ} → P ⊎ (i ≡ n) → P ⊎ (suc i ≡ suc n)
shifted (inl p) = inl p
shifted (inr e) = inr (ap suc e)

pub kind_at-created :
    (cs : List Cell) (w : Ref)
    → kind_at (cs ++ program ∷ []) w ≡ di_subprogram
    → (kind_at cs w ≡ di_subprogram) ⊎ (w ≡ suc (length cs))
kind_at-created cs zero h = inl h
kind_at-created [] (suc zero) h = inr refl
kind_at-created [] (suc (suc i)) h = inl h
kind_at-created (program ∷ cs) (suc zero) h = inl h
kind_at-created (node ∷ cs) (suc zero) h = inl h
kind_at-created (string t ∷ cs) (suc zero) h = inl h
kind_at-created (program ∷ cs) (suc (suc i)) h = shifted (kind_at-created cs (suc i) h)
kind_at-created (node ∷ cs) (suc (suc i)) h = shifted (kind_at-created cs (suc i) h)
kind_at-created (string t ∷ cs) (suc (suc i)) h = shifted (kind_at-created cs (suc i) h)

pub kind_at-le-length : (cs : List Cell) (w : Ref) → kind_at cs w ≡ di_subprogram → w ≤ length cs
kind_at-le-length cs zero h = omega arith
kind_at-le-length [] (suc i) h = cc
kind_at-le-length (c ∷ cs) (suc zero) h = omega arith
kind_at-le-length (program ∷ cs) (suc (suc i)) h = omega (arith, kind_at-le-length cs (suc i) h)
kind_at-le-length (node ∷ cs) (suc (suc i)) h = omega (arith, kind_at-le-length cs (suc i) h)
kind_at-le-length (string t ∷ cs) (suc (suc i)) h = omega (arith, kind_at-le-length cs (suc i) h)
