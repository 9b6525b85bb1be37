-- ===== src/ProdCon/Log.antt =====
-- Assignment_2/f22/main.cpp: the lines of the log.
use cmput.Common.{
  ℕ, zero, suc, ◌-◌, [], ◌∷◌, ◌++◌, Option, none, some, if◌then◌else◌, ltb, ℤ, pos, negsuc, length,
}
use cmput.Text.{Bytes, codes}
use cmput.Text.Number.{to_string, print_nat}

unfoldable pub blanks : ℕ → Bytes
blanks zero = []
blanks (suc n) = b' ' ∷ blanks n

-- `%-10s`
unfoldable pub left_10 : Bytes → Bytes
unfolding blanks
left_10 text = text ++ blanks (10 - length text)

-- `%2d` and `%2ld` of a number that is not negative
unfoldable pub right_2 : ℕ → Bytes
right_2 n = if ltb n 10 then b' ' ∷ print_nat n else print_nat n

-- `command[1]`: behind the last character there is a NUL, and beyond it nothing.
unfoldable pub second : Bytes → Option ℕ
second [] = none
second (c ∷ []) = some 0
second (c ∷ d ∷ command) = some d

-- `command[1] - 48`
unfoldable pub digit : ℕ → ℤ
digit c = if ltb c 48 then negsuc (47 - c) else pos (c - 48)

unfoldable pub producer_log : Bytes → ℕ → Bytes → ℤ → Bytes
unfolding left_10 right_2
producer_log time size what n =
    codes "\t"
    ++ (time
        ++ (codes " ID=  0 Q="
            ++ (right_2 size
                ++ (codes " " ++ (left_10 what ++ (codes " " ++ (to_string n ++ codes "\n")))))))

unfoldable pub consumer_log : Bytes → ℕ → Bytes → Bytes → Bytes
unfolding left_10 right_2
consumer_log time id what rest =
    codes "\t"
    ++ (time ++ (codes " ID= " ++ (right_2 id ++ (codes "      " ++ (left_10 what ++ rest)))))
