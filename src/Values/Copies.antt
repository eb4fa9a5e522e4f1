-- ===== src/Values/Copies.antt =====
-- The copy constructors of the plain values of driver/.
use bat_native_ledger_isolat.Prelude.{◌≡◌, refl}
use bat_native_ledger_isolat.Service.{ContentSite}
use bat_native_ledger_isolat.Database.Writes.{ContributionInfo, RecurringDonation}
use bat_native_ledger_isolat.Values.{
  BalanceReport, WalletProperties, PublisherBanner, copy_balance_report, copy_publisher_banner,
  copy_contribution_info, copy_wallet_properties, copy_content_site, copy_recurring_donation,
}

-- A copy of each of the six values is equal to what it was copied from.
pub copies_equal :
    {D : Type 0} (report : BalanceReport) (banner : PublisherBanner) (info : ContributionInfo)
    (wallet : WalletProperties D) (site : ContentSite D) (donation : RecurringDonation D)
    → (copy_balance_report report ≡ report)
      × (copy_publisher_banner banner ≡ banner)
      × (copy_contribution_info info ≡ info)
      × (copy_wallet_properties wallet ≡ wallet)
      × (copy_content_site site ≡ site)
      × (copy_recurring_donation donation ≡ donation)
unfolding copy_balance_report copy_publisher_banner copy_contribution_info copy_wallet_properties
    copy_content_site copy_recurring_donation
copies_equal report banner info wallet site donation = (refl, refl, refl, refl, refl, refl)
