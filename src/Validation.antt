-- ===== src/Validation.antt =====
-- internal/validation/validator.go: the messages for what the validator library objects to.
pub mod Regex
pub mod Custom
pub mod Phones
pub mod Spellings
pub mod Identifiers
use multi_tenant_authorizati.Base.{String, Option, none, some, List, [], ◌∷◌, str_eq, if◌then◌else◌}

-- `mapValidationMessage`, on the tag of the rule that a field breaks.
unfoldable map_validation_message : String → String
map_validation_message tag =
    if str_eq tag "required"
    then "field is required"
    else (if str_eq tag "email"
        then "must be a valid email"
        else (if str_eq tag "min"
            then "value is too short"
            else (if str_eq tag "max"
                then "value is too long"
                else (if str_eq tag "ngphone"
                    then "must be a valid Nigerian phone number"
                    else (if str_eq tag "phone"
                        then "must be a valid phone number"
                        else (if str_eq tag "ngidentifier"
                            then "must be a valid Nigerian phone number or email"
                            else (if str_eq tag "identifier"
                                then "must be a valid phone number or email"
                                else (if str_eq tag "uuid"
                                    then "must be a valid UUID"
                                    else (if str_eq tag "url"
                                        then "must be a valid URL"
                                        else "invalid value")))))))))

unfoldable fields_of : List (String × String) → List (String × String)
unfolding map_validation_message
fields_of [] = []
fields_of ((field, tag) ∷ rest) = (field, map_validation_message tag) ∷ fields_of rest

-- `ValidateStruct`, from the field and the tag of each error of the validator; none is nil.
unfoldable pub validate_struct : List (String × String) → Option (List (String × String))
unfolding fields_of
validate_struct [] = none
validate_struct (e ∷ rest) = some (fields_of (e ∷ rest))
