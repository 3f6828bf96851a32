-- ===== src/Macos/Service.antt =====
-- src/platform/macos/dns.rs: `primary_service`, what it reads from the list that `networksetup` prints.
use cortado.Base.{
  ◌≡◌, refl, ◌∙◌, ◌&&◌, Bool, true, false, List, [], ◌∷◌, ◌++◌, Option, none, some, Bytes, codes,
  nat_beq, is_empty, if◌then◌else◌,
}
use cortado.Text.Split.{lines, trim, strip_prefix, split_once, contains_text}
use cortado.Platform.Commands.{Commands}

-- `split("\n\n")`, with what is read of the current block.
abbrev pub split_blank : Bytes → Bytes → List Bytes
split_blank cur [] = cur ∷ []
split_blank cur (c ∷ []) = (cur ++ c ∷ []) ∷ []
split_blank cur (c ∷ d ∷ cs) =
    let ended = cur ∷ split_blank [] cs in
    let longer = split_blank (cur ++ c ∷ []) (d ∷ cs) in
    if nat_beq c 10 && nat_beq d 10 then ended else longer

-- `split(')').nth(1)`.
abbrev pub up_to : Bytes → Option (Bytes × Bytes) → Bytes
up_to text none = text
up_to text (some (before, rest)) = before

abbrev pub second_part : Option (Bytes × Bytes) → Option Bytes
second_part none = none
second_part (some (before, rest)) = some (up_to rest (split_once b')' rest))

abbrev pub name_in : Option Bytes → Option Bytes
name_in none = none
name_in (some rest) = second_part (split_once b')' rest)

abbrev pub unless_empty : Bytes → Option Bytes
unless_empty [] = none
unless_empty (c ∷ cs) = some (c ∷ cs)

abbrev pub trimmed : Option Bytes → Option Bytes
trimmed none = none
trimmed (some name) = unless_empty (trim name)

abbrev pub or_next : Option Bytes → Option Bytes → Option Bytes
or_next (some name) later = some name
or_next none later = later

abbrev pub service_in : List Bytes → Option Bytes
service_in [] = none
service_in (l ∷ ls) =
    or_next (trimmed (name_in (strip_prefix (codes "(") (trim l)))) (service_in ls)

abbrev pub first_service : List Bytes → Option Bytes
first_service [] = none
first_service (block ∷ rest) =
    let later = first_service rest in
    if contains_text (codes "Device:") block
    then or_next (service_in (lines block)) later
    else later

abbrev pub service_printed : Option Bytes → Option Bytes
service_printed none = none
service_printed (some text) = first_service (split_blank [] text)

unfoldable pub primary_service : (c : Commands) → c.State → Option Bytes
primary_service c s =
    service_printed
      (c.output (codes "/usr/sbin/networksetup" ∷ codes "-listnetworkserviceorder" ∷ []) s)

unless_empty-full : (name found : Bytes) → unless_empty name ≡ some found → is_empty found ≡ false
unless_empty-full [] found h = cc
unless_empty-full (c ∷ cs) [] h = cc
unless_empty-full (c ∷ cs) (d ∷ ds) h = refl

-- The name of a line is not empty, and neither is the first one.
service_in-full :
    (ls : List Bytes) (found : Bytes) → service_in ls ≡ some found → is_empty found ≡ false
service_in-full [] found h = cc
service_in-full (l ∷ ls) found h =
    of_line (name_in (strip_prefix (codes "(") (trim l))) (λ k. service_in-full ls found k) h
  where
    of_line :
        (o : Option Bytes)
        → (service_in ls ≡ some found → is_empty found ≡ false)
        → or_next (trimmed o) (service_in ls) ≡ some found
        → is_empty found ≡ false
    of_line none later k = later k
    of_line (some name) later k = chosen (unless_empty (trim name)) refl k
      where
        chosen :
            (n : Option Bytes)
            → unless_empty (trim name) ≡ n
            → or_next n (service_in ls) ≡ some found
            → is_empty found ≡ false
        chosen none e m = later m
        chosen (some x) e m = unless_empty-full (trim name) found (e ∙ m)

first_service-full :
    (blocks : List Bytes) (found : Bytes)
    → first_service blocks ≡ some found
    → is_empty found ≡ false
first_service-full [] found h = cc
first_service-full (block ∷ rest) found h =
    of_block (contains_text (codes "Device:") block) (service_in (lines block)) refl
      (λ k. first_service-full rest found k) h
  where
    of_block :
        (b : Bool) (o : Option Bytes)
        → service_in (lines block) ≡ o
        → (first_service rest ≡ some found → is_empty found ≡ false)
        → (if b then or_next o (first_service rest) else first_service rest) ≡ some found
        → is_empty found ≡ false
    of_block false o e later k = later k
    of_block true none e later k = later k
    of_block true (some name) e later k = service_in-full (lines block) found (e ∙ k)

-- A service that is found has a name.
pub primary_service-full :
    (c : Commands) (s : c.State) (found : Bytes)
    → primary_service c s ≡ some found
    → is_empty found ≡ false
unfolding primary_service
primary_service-full c s found h =
    printed (c.output (codes "/usr/sbin/networksetup" ∷ codes "-listnetworkserviceorder" ∷ []) s) h
  where
    printed : (o : Option Bytes) → service_printed o ≡ some found → is_empty found ≡ false
    printed none k = cc
    printed (some text) k = first_service-full (split_blank [] text) found k
