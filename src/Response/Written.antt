-- ===== src/Response/Written.antt =====
-- The lengths that error responses announce.
use mevent.Common.{ℕ, ◌≡◌, ◌≢◌, ◌↔◌, inl, inr, refl, subst, ◌==◌, length, arith, Bool-cases, ==_iff}
use mevent.Response.{error_msg, error_content_length}

lengths_differ : error_content_length 400 ≢ length (error_msg 400)
lengths_differ h = omega (arith, h)

-- The length that an error response announces is that of its message for every code but 400.
pub error_content_length_iff :
    (code : ℕ) → (error_content_length code ≡ length (error_msg code)) ↔ (code ≢ 400)
error_content_length_iff code = elim (Bool-cases (code == 400)) [
  | inl bad ↦
      let same = (==_iff code 400).0 bad in
      (
        λ h e. lengths_differ (subst (λ c. error_content_length c ≡ length (error_msg c)) same h),
        λ other. absurd (other same),
      )
  | inr fine ↦ (λ h e. ground (arith, fine, e), λ other. rw fine refl)
]
