-- ===== src/Tensor/Sample.antt =====
-- Tensors to try the code on.
use tt_lang.Prelude.{ℕ, ℤ, pos, distance, List, [], ◌∷◌, ok}
use tt_lang.Tensor.{Torch}

-- A tensor that only knows its shape and where its first element lies.
pub record Sheet : Type 0 where
  pub dims : List ℕ
  pub row : ℤ
  pub column : ℤ

abbrev pub sheets : Torch Sheet
sheets = record {
  shape = λ t. t.dims;
  read =
      λ t r c. record { dims = distance r.0 r.1 ∷ distance c.0 c.1 ∷ []; row = r.0; column = c.0 };
  item = λ t i j. ok record { dims = []; row = i; column = j };
  write = λ t r c v. ok t;
  write_item = λ t i j v. ok t;
}

abbrev pub sheet : Sheet
sheet = record { dims = 64 ∷ 96 ∷ []; row = pos 0; column = pos 0 }
