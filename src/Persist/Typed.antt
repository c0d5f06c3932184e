-- ===== src/Persist/Typed.antt =====
-- The node behind a text, a flag, a number or an array that was found.
use cmm_sdk.Common.{ℕ, ◌≡◌, ap, Bool, Option, none, some, some_inj}
use cmm_sdk.Common.Text.{Text}
use cmm_sdk.Persist.{Node, Items}
use cmm_sdk.Persist.Reads.{text_of, flag_of, number_of, items_of}

pub text_at : (o : Option Node) (t : Text) → text_of o ≡ some t → o ≡ some (Node.string t)
text_at (some (Node.string t)) u h = ap (λ w. some (Node.string w)) (some_inj h)
text_at (some Node.null) u h = cc h
text_at (some Node.empty) u h = cc h
text_at (some (Node.boolean b)) u h = cc h
text_at (some (Node.number n)) u h = cc h
text_at (some (Node.object fs)) u h = cc h
text_at (some (Node.array xs)) u h = cc h
text_at none u h = cc h

pub flag_at : (o : Option Node) (b : Bool) → flag_of o ≡ some b → o ≡ some (Node.boolean b)
flag_at (some (Node.boolean b)) u h = ap (λ w. some (Node.boolean w)) (some_inj h)
flag_at (some Node.null) u h = cc h
flag_at (some Node.empty) u h = cc h
flag_at (some (Node.string t)) u h = cc h
flag_at (some (Node.number n)) u h = cc h
flag_at (some (Node.object fs)) u h = cc h
flag_at (some (Node.array xs)) u h = cc h
flag_at none u h = cc h

pub number_at : (o : Option Node) (k : ℕ) → number_of o ≡ some k → o ≡ some (Node.number k)
number_at (some (Node.number n)) u h = ap (λ w. some (Node.number w)) (some_inj h)
number_at (some Node.null) u h = cc h
number_at (some Node.empty) u h = cc h
number_at (some (Node.string t)) u h = cc h
number_at (some (Node.boolean b)) u h = cc h
number_at (some (Node.object fs)) u h = cc h
number_at (some (Node.array xs)) u h = cc h
number_at none u h = cc h

pub items_at : (o : Option Node) (xs : Items) → items_of o ≡ some xs → o ≡ some (Node.array xs)
items_at (some (Node.array xs)) u h = ap (λ w. some (Node.array w)) (some_inj h)
items_at (some Node.null) u h = cc h
items_at (some Node.empty) u h = cc h
items_at (some (Node.string t)) u h = cc h
items_at (some (Node.boolean b)) u h = cc h
items_at (some (Node.object fs)) u h = cc h
items_at (some (Node.number n)) u h = cc h
items_at none u h = cc h
