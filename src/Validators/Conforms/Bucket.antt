-- ===== src/Validators/Conforms/Bucket.antt =====
-- The formats of the commands in Validators/Bucket.antt.
use memcached.Common.{◌≡◌, ◌↔◌, arith}
use memcached.Protocol.{Packet, success}
use memcached.Validators.Format.{Conforms, any, exactly, at_least, between}
use memcached.Validators.Bucket.{
  create_bucket_validator, list_bucket_validator, delete_bucket_validator, select_bucket_validator,
}
use memcached.Validators.Conforms.Lengths.{Facts, format}

module _ (req : Packet) (facts : Facts req) where
  pub create_bucket_validator-Conforms :
      (create_bucket_validator req ≡ success)
      ↔ Conforms (format (exactly 0) (between 1 100) (at_least 1) any (exactly 0)) req
  unfolding create_bucket_validator
  create_bucket_validator-Conforms = (λ h. ground arith, λ c. ground arith)

  pub list_bucket_validator-Conforms :
      (list_bucket_validator req ≡ success)
      ↔ Conforms (format (exactly 0) (exactly 0) (exactly 0) any (exactly 0)) req
  unfolding list_bucket_validator
  list_bucket_validator-Conforms = (λ h. ground arith, λ c. ground arith)

  pub delete_bucket_validator-Conforms :
      (delete_bucket_validator req ≡ success)
      ↔ Conforms (format (exactly 0) (at_least 1) any any (exactly 0)) req
  unfolding delete_bucket_validator
  delete_bucket_validator-Conforms = (λ h. ground arith, λ c. ground arith)

  pub select_bucket_validator-Conforms :
      (select_bucket_validator req ≡ success)
      ↔ Conforms (format (exactly 0) (between 0 1023) (exactly 0) any (exactly 0)) req
  unfolding select_bucket_validator
  select_bucket_validator-Conforms = (λ h. ground arith, λ c. ground arith)
