-- ===== src/Tests/Codes.antt =====
-- Codes of data as lists of numbers that read back, to show that a serialiser can exist.
use tesaurus.Prelude.{
  ℕ, zero, suc, ◌≡◌, refl, ap, sym, ◌∙◌, Bytes, List, [], ◌∷◌, ◌++◌, Option, some, none, length,
  append_assoc, append_nil,
}
use tesaurus.Bitcoin.{TxIn, TxOut, Transaction}

pub record Code (A : Type 0) : Type 0 where
  pub encode : A → Bytes
  pub decode : Bytes → Option (A × Bytes)
  pub reads : (a : A) (rest : Bytes) → decode (encode a ++ rest) ≡ some (a, rest)

abbrev decode_number : Bytes → Option (ℕ × Bytes)
decode_number [] = none
decode_number (n ∷ rest) = some (n, rest)

abbrev pub number : Code ℕ
number = record { encode = λ n. n ∷ []; decode = decode_number; reads = λ n rest. refl }

module _ {A B : Type 0} where
  abbrev then_decode : Option (A × Bytes) → (A → Bytes → Option (B × Bytes)) → Option (B × Bytes)
  then_decode none k = none
  then_decode (some (a, rest)) k = k a rest

module _ {A B : Type 0} (a : Code A) (b : Code B) where
  abbrev decode_second : A → Bytes → Option ((A × B) × Bytes)
  decode_second x rest = then_decode (b.decode rest) (λ y r. some ((x, y), r))

  pub reads_pair :
      (p : A × B) (rest : Bytes)
      → then_decode (a.decode ((a.encode p.0 ++ b.encode p.1) ++ rest)) decode_second
        ≡ some (p, rest)
  reads_pair p rest =
      rw (append_assoc (a.encode p.0) (b.encode p.1) rest)
        (rw (a.reads p.0 (b.encode p.1 ++ rest)) (rw (b.reads p.1 rest) refl))

  abbrev pub pair : Code (A × B)
  pair = record {
    encode = λ p. a.encode p.0 ++ b.encode p.1;
    decode = λ bytes. then_decode (a.decode bytes) decode_second;
    reads = reads_pair;
  }

module _ {A B : Type 0} (a : Code A) (f : A → B) (g : B → A) (back : (y : B) → f (g y) ≡ y) where
  pub reads_map :
      (y : B) (rest : Bytes)
      → then_decode (a.decode (a.encode (g y) ++ rest)) (λ x r. some (f x, r)) ≡ some (y, rest)
  reads_map y rest = rw (a.reads (g y) rest) (rw (back y) refl)

  abbrev pub through : Code B
  through = record {
    encode = λ y. a.encode (g y);
    decode = λ bytes. then_decode (a.decode bytes) (λ x r. some (f x, r));
    reads = reads_map;
  }

module _ {A : Type 0} (a : Code A) where
  abbrev encode_all : List A → Bytes
  encode_all [] = []
  encode_all (x ∷ xs) = a.encode x ++ encode_all xs

  abbrev decode_all : ℕ → Bytes → Option (List A × Bytes)
  decode_all zero bytes = some ([], bytes)
  decode_all (suc n) bytes =
      then_decode (a.decode bytes)
        (λ x rest. then_decode (decode_all n rest) (λ xs r. some (x ∷ xs, r)))

  pub reads_all :
      (xs : List A) (rest : Bytes)
      → decode_all (length xs) (encode_all xs ++ rest) ≡ some (xs, rest)
  reads_all [] rest = refl
  reads_all (x ∷ xs) rest =
      rw (append_assoc (a.encode x) (encode_all xs) rest)
        (rw (a.reads x (encode_all xs ++ rest)) (rw (reads_all xs rest) refl))

  abbrev decode_list : Bytes → Option (List A × Bytes)
  decode_list [] = none
  decode_list (n ∷ bytes) = decode_all n bytes

  abbrev pub many : Code (List A)
  many = record {
    encode = λ xs. length xs ∷ encode_all xs;
    decode = decode_list;
    reads = reads_all;
  }

abbrev txin : Code TxIn
txin =
    through
      (pair (pair (pair (many number) number) (pair (many number) number)) (many (many number)))
      (λ (p : ((Bytes × ℕ) × (Bytes × ℕ)) × List Bytes). record {
        previous_output = record { txid = p.0.0.0; vout = p.0.0.1 };
        script_sig = p.0.1.0;
        sequence = p.0.1.1;
        witness = p.1;
      })
      (λ (i : TxIn).
        (((i.previous_output.txid, i.previous_output.vout), (i.script_sig, i.sequence)), i.witness))
      (λ i. refl)

abbrev txout : Code TxOut
txout =
    through (pair number (many number))
      (λ (p : ℕ × Bytes). record { value = p.0; script_pubkey = p.1 })
      (λ (o : TxOut). (o.value, o.script_pubkey)) (λ o. refl)

abbrev pub transaction : Code Transaction
transaction =
    through (pair (pair number number) (pair (many txin) (many txout)))
      (λ (p : (ℕ × ℕ) × (List TxIn × List TxOut)). record {
        version = p.0.0;
        lock_time = p.0.1;
        input = p.1.0;
        output = p.1.1;
      })
      (λ (t : Transaction). ((t.version, t.lock_time), (t.input, t.output))) (λ t. refl)

-- A code with nothing behind it reads back.
pub decode-encode : {A : Type 0} (a : Code A) (x : A) → a.decode (a.encode x) ≡ some (x, [])
decode-encode a x = ap a.decode (sym (append_nil (a.encode x))) ∙ a.reads x []
