-- ===== src/SetPci/Parse/Accepts.antt =====
-- What setpci accepts: an operation that `parse_op` returns is well formed.
use adnacom_hotplug.Common.{
  ◌+◌, ◌*◌, ◌^◌, ◌≤◌, ◌<◌, ◌≡◌, ◌||◌, ◌-◌, arith, length, AllOf, max, Ends, Ends-bind, Ends-then,
  Ends-fault,
}
use adnacom_hotplug.Common.Text.{Text}
use adnacom_hotplug.SetPci.{Op}
use adnacom_hotplug.SetPci.Parse.{
  split, count_values, parse_width, parse_register, check_range, parse_values, parse_op, need_width,
  is_there, add_offset, parse_number, limit_of,
}
use adnacom_hotplug.SetPci.Parse.Places.{
  IsAligned, IsWidth, IsBareDot, parse_width-IsWidth, parse_register-Ends, need_width-Ends,
  parse_number-Ends, add_offset-Ends, check_range-Ends, limit_of-Ends,
}
use adnacom_hotplug.SetPci.Parse.Values.{
  IsMasked, HasValues, count_values-Ends, parse_values-Ends, split-shorter, HasValues-le,
}
use adnacom_hotplug.SetPci.Parse.Splits.{EndsInDot, bare_dot}

pub record IsValid (op : Op) : Type 0 where
  pub aligned : IsAligned op.addr op.width
  pub in_space : op.addr + op.width * max 1 op.num_values ≤ 0x1000
  pub counted : length op.values ≡ op.num_values
  pub masked : AllOf IsMasked op.values

-- For every operation text of fewer than 2^28 - 1 characters: what `parse_op` returns is a well
-- formed operation, and a text that it does not return from ends the process with status 1. Each
-- write lies aligned in the 4096 bytes of the space as far as the address does not depend on a
-- capability, there is a value for each that is counted, and values and masks are words of which the
-- value has no bit outside the mask. Only a text that ends in a dot may lead to undefined behaviour.
pub parse_op-IsValid : (c : Text) → length c < 2 ^ 28 - 1 → Ends (EndsInDot c) IsValid (parse_op c)
unfolding parse_op
parse_op-IsValid c small =
    let (s1, value) = split b'=' c in
    let (s2, number) = split b'@' s1 in
    let (s3, width) = split b'.' s2 in
    let (base, offset) = split b'+' s3 in
    let followed = is_there number || is_there value in
    let F = EndsInDot c in
    Ends-then F (λ n. HasValues n value) IsValid (count_values value) _ (count_values-Ends value)
      λ n values_there.
        Ends-bind F IsWidth IsValid (parse_width width followed) _
          (Ends-fault (IsBareDot width followed) F IsWidth (parse_width width followed) (bare_dot c)
            (parse_width-IsWidth width followed))
          λ w is_width.
            Ends-then F _ IsValid (parse_number number) _ (parse_number-Ends number) λ nr nr_fits.
              Ends-then F _ IsValid (parse_register base w) _ (parse_register-Ends base w is_width)
                λ place place_width.
                  Ends-then F _ IsValid (need_width place.width) _ (need_width-Ends place.width)
                    λ _ nonzero.
                      Ends-then F _ IsValid (add_offset offset place.addr) _
                        (add_offset-Ends offset place.addr)
                        λ addr _.
                          Ends-then F _ IsValid (check_range addr place.width n) _
                            (check_range-Ends addr place.width n place_width nonzero (
                              omega (
                                arith,
                                HasValues-le n (length c) value (split-shorter b'=' c).1
                                    values_there,
                              )))
                            λ _ fits.
                              Ends-then F _ IsValid (limit_of place.width) _
                                (limit_of-Ends place.width place_width)
                                λ lim _.
                                  Ends-then F _ IsValid (parse_values n lim value) _
                                    (parse_values-Ends n lim value values_there)
                                    λ values all_masked. record {
                                      aligned = fits.0;
                                      in_space = fits.1;
                                      counted = all_masked.0;
                                      masked = all_masked.1;
                                    }
